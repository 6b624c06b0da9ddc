-- ===== src/Children.antt =====
-- src/vgc_mprotect_mp.c: the table of child processes in VGC_shared, and what its operations do outside
-- of the table. The file is compiled where VGC_MALLOC_MPROTECT_MP is set.
pub mod Table
pub mod Thread
pub mod Distribute
pub mod Server
pub mod Lifecycle
pub mod Unique
pub mod Entry
pub mod Deliver
pub mod Spin
pub mod Count
use vgc_malloc.Base.{ℕ, suc, Bool, String, List, [], ◌∷◌, ◌++◌, Option, word_mod}
use vgc_malloc.Errno.{Errno, Message, message}
use vgc_malloc.Memory.{Ptr}
use vgc_malloc.Network.{Answer}

-- `VGC_mallocDebugChild`. The socket's name is /tmp/vgc-malloc/malloc-<pid>.sock, and the number in it
-- stands for it.
pub record Child : Type 0 where
  pub pid : ℕ
  pub thread : ℕ
  pub socket_fd : ℕ
  pub socket_name : ℕ

-- `MProtectBlock`. `protects` is PROT_NONE.
pub record MprotectBlock : Type 0 where
  pub header : Ptr
  pub protects : Bool
  pub source : ℕ

-- What is done outside of the table.
pub data Event : Type 0 where
  created : ℕ → Event  -- the thread of the child with this pid
  cancelled joined : ℕ → Event  -- a thread
  closed : ℕ → Event  -- a file descriptor
  unlinked : ℕ → Event  -- the socket of this name, by unlink
  removed : String → Event  -- a file of the directory of sockets, by unlink
  sent : ℕ → MprotectBlock → Event  -- to the socket of this name
  changed : MprotectBlock → Event  -- the protection of the page of a header
  replied : ℕ → Event
  reported : Message → Event  -- a message at ERROR_LEVEL

-- The events, the latest first, the number of calls made, and `errno`.
pub record World : Type 0 where
  pub events : List Event
  pub calls : ℕ
  pub errno : Errno

-- The table `children` with `maxProcesses` entries, the flag `isFather`, and the world.
pub record Family : Type 0 where
  pub children : List Child
  pub is_father : Bool
  pub world : World

-- The calls of the system. Each takes the number of the call.
pub record Calls : Type 0 where
  pub create : ℕ → Errno
  pub thread_id : ℕ → ℕ  -- the thread that pthread_create has made
  pub cancel : ℕ → Errno
  pub join : ℕ → Errno
  pub socket : ℕ → Answer
  pub bind : ℕ → Answer
  pub listen : ℕ → Answer
  pub accept : ℕ → Answer
  pub connect : ℕ → Answer
  pub write : ℕ → Answer
  pub read : ℕ → Answer
  pub received : ℕ → MprotectBlock → MprotectBlock  -- the buffer after `read`, from that before
  pub mprotect : ℕ → Ptr → Errno
  pub mkdir : ℕ → Errno
  pub entries : ℕ → Option (List (String × Bool))  -- of a directory, and whether each is a socket
  pub mmap : ℕ → ℕ → Option (List Child)  -- the mapped array; `none` is MAP_FAILED
  pub munmap : ℕ → Errno

-- An event that no call answers.
abbrev pub note : Event → World → World
note e w = record w { events = e ∷ w.events }

abbrev reports : List Message → List Event → List Event
reports [] es = es
reports (m ∷ ms) es = reports ms (reported m ∷ es)

-- A call has been made, and its wrapper has printed these messages.
abbrev pub called : List Message → World → World
called ms w = record w { events = reports ms w.events; calls = suc w.calls }

-- A message at ERROR_LEVEL.
abbrev pub report : String → String → String → World → World
report t u v = note (reported (message t u v))
