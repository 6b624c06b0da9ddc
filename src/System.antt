-- ===== src/System.antt =====
-- What the program calls of the operating system and of the pthread library. It is a parameter: the
-- answers may differ from call to call, so each takes the number of the call. The wrappers of
-- src/vgc_pthread.c are applied to the answers here.
pub mod Laws
pub mod Locking
use vgc_malloc.Base.{
  ℕ, zero, suc, ◌+◌, Bool, true, false, Option, none, some, List, [], ◌∷◌, ◌++◌, if◌then◌else◌,
}
use vgc_malloc.Errno.{Errno, success, eownerdead}
use vgc_malloc.Pthread
use vgc_malloc.Pthread.{Outcome}
use vgc_malloc.Memory.{
  Ptr, MmapHeader, State, M, ok, Mutex, same_mutex, pure, ◌>>=◌, ◌>>◌, get_shared, update,
  update_range,
}

pub record System : Type 0 where
  pub mmap : ℕ → ℕ → Option Ptr  -- for a length; `none` is MAP_FAILED
  pub munmap : ℕ → Ptr → ℕ → Bool  -- false is the result -1
  pub mprotect : ℕ → Ptr → Errno
  pub lock : ℕ → Mutex → Errno
  pub consistent : ℕ → Mutex → Errno
  pub unlock : ℕ → Mutex → Errno
  pub init : ℕ → Mutex → Errno
  pub destroy : ℕ → Mutex → Errno
  pub attr_init : ℕ → Mutex → Errno
  pub attr_setrobust : ℕ → Mutex → Errno
  pub attr_setpshared : ℕ → Mutex → Errno
  pub attr_settype : ℕ → Mutex → Errno
  pub attr_destroy : ℕ → Mutex → Errno
  pub backtrace : ℕ → List ℕ  -- at most VGC_MALLOC_STACKTRACE_SIZE return addresses

-- Gives up the latest hold of a mutex.
abbrev pub release : Mutex → List Mutex → List Mutex
release m [] = []
release m (x ∷ xs) = if same_mutex m x then xs else x ∷ release m xs

-- A thread owns the mutex after these answers of pthread_mutex_lock.
abbrev pub is_acquired : Errno → Bool
is_acquired success = true
is_acquired eownerdead = true
is_acquired _ = false

-- Counts the call, and prints what the wrapper prints.
abbrev pub finish : Outcome → List Mutex → M Bool
finish o held s =
    ok o.result (record s { held = held; log = o.messages ++ s.log; calls = suc s.calls })

module _ (sys : System) where
  -- PTHREAD_mutexLock
  unfoldable pub mutex_lock : Mutex → M Bool
  mutex_lock m s =
      let code = sys.lock s.calls m in
      finish (Pthread.mutex_lock code (sys.consistent s.calls m) (sys.destroy s.calls m))
        (if is_acquired code then m ∷ s.held else s.held) s

  -- PTHREAD_mutexUnlock
  unfoldable pub mutex_unlock : Mutex → M Bool
  mutex_unlock m s =
      let o = Pthread.mutex_unlock (sys.unlock s.calls m) in
      finish o (if o.result then release m s.held else s.held) s

  -- PTHREAD_mutexInit
  unfoldable pub mutex_init : Mutex → M Bool
  mutex_init m s = finish (Pthread.mutex_init (sys.init s.calls m)) s.held s

  -- PTHREAD_mutexDestroy
  unfoldable pub mutex_destroy : Mutex → M Bool
  mutex_destroy m s = finish (Pthread.mutex_destroy (sys.destroy s.calls m)) s.held s

  -- PTHREAD_mutexattrInit
  unfoldable pub mutexattr_init : Mutex → M Bool
  mutexattr_init m s =
      finish
        (Pthread.mutexattr_init (sys.attr_init s.calls m) (sys.attr_setrobust s.calls m)
          (sys.attr_setpshared s.calls m) (sys.attr_settype s.calls m))
        s.held s

  -- PTHREAD_mutexattrDestroy
  unfoldable pub mutexattr_destroy : Mutex → M Bool
  mutexattr_destroy m s = finish (Pthread.mutexattr_destroy (sys.attr_destroy s.calls m)) s.held s

  -- mmap: fresh memory is readable, writable and zero. No header stands in it but the zeroed
  -- MMAP header at its start.
  unfoldable pub mmap : ℕ → M (Option Ptr)
  mmap len s = elim (sys.mmap s.calls len) [
    | none ↦ ok none (record s { calls = suc s.calls })
    | some p ↦ ok (some p) (record s {
      mapped = update_range s.mapped p len true;
      mmaps = update (update_range s.mmaps p len none) p (some zero_header);
      blocks = update_range s.blocks p len none;
      guarded = update_range s.guarded p len false;
      bytes = update_range s.bytes p len 0;
      calls = suc s.calls;
    })
  ]
    where
      zero_header : MmapHeader
      zero_header = record {
        check_start = 0;
        size = 0;
        max_size = 0;
        elements = 0;
        prev = 0;
        next = 0;
        check_end = 0;
      }

  -- munmap. Where it fails, nothing is unmapped.
  unfoldable pub munmap : Ptr → ℕ → M Bool
  munmap p len s =
      if sys.munmap s.calls p len
      then ok true (record s {
        mapped = update_range s.mapped p len false;
        mmaps = update_range s.mmaps p len none;
        blocks = update_range s.blocks p len none;
        guarded = update_range s.guarded p len false;
        calls = suc s.calls;
      })
      else ok false (record s { calls = suc s.calls })
