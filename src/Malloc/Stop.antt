-- ===== src/Malloc/Stop.antt =====
-- The constructor and the destructor of the library in src/vgc_malloc.c, my_init and my_fini, and
-- mallocCleanup.
use vgc_malloc.Base.{ℕ, Bool, true, false, none, not, List, ◌++◌, ◌==◌, if◌then◌else◌}
use vgc_malloc.Errno.{Message}
use vgc_malloc.Memory.{
  Ptr, null, shared_mutex, M, ok, pure, ◌>>=◌, ◌>>◌, when, get_shared, set_shared, report,
  load_mmap,
}
use vgc_malloc.System.{System, mutex_destroy, mutexattr_destroy, munmap}
use vgc_malloc.Malloc.Dump.{Line, Traces, show_trace, dump_mmap_block}
use vgc_malloc.Malloc.Start.{initialize_shared}
use vgc_malloc.Stacktrace.{stacktrace_init}

abbrev print : List Message → M (Unit {0})
print ms s = ok tt (record s { log = ms ++ s.log })

module _ (sys : System) where
  -- mallocCleanup, for the address and the size of VGC_shared. The length of a printed line does not
  -- matter, since there is no buffer.
  unfoldable pub malloc_cleanup : (Line → ℕ) → Traces → Ptr → (size : ℕ) → M (Unit {0})
  malloc_cleanup width tr shared size = if shared == null then pure tt else do
    sh ← get_shared
    when (not (sh.mmap_block_first == null)) (do
      _ ← load_mmap sh.mmap_block_first
      _ ← dump_mmap_block width (show_trace tr) none 0 sh.mmap_block_first
      pure tt)
    attr ← mutexattr_destroy sys shared_mutex
    when (not attr) (report "PTHREAD_mutexattrDestroy" "Error" "can't destroy shared mutexAttr")
    destroyed ← mutex_destroy sys shared_mutex
    when (not destroyed) (report "PTHREAD_mutexDestroy" "Error" "can't destroy shared mutexAttr")
    unmapped ← munmap sys shared size
    when (not unmapped) (report "munmap" "Error" "unmapping MMAP (shared)")

  -- my_init, in the process `self`; false is exit(EXIT_FAILURE)
  unfoldable pub my_init : (ℕ → Bool) → (self size page_size : ℕ) → M Bool
  my_init sigaction self size page_size = do
    let (handled, messages) = stacktrace_init sigaction
    print messages
    if not handled then pure false else do
      started ← initialize_shared sys size page_size
      if not started
          then pure false
          else do sh ← get_shared; set_shared (record sh { pid = self }); pure true

  -- my_fini, in the process `self`
  unfoldable pub my_fini : (Line → ℕ) → Traces → (self : ℕ) → Ptr → (size : ℕ) → M (Unit {0})
  my_fini width tr self shared size = do
    sh ← get_shared
    when (self == sh.pid) (malloc_cleanup width tr shared size)
