-- ===== src/Malloc/Start.antt =====
-- createShared, initialiseMutex and initializeShared of src/vgc_malloc.c, in the build with guard pages.
use vgc_malloc.Base.{ℕ, true, false, Bool, none, some, not, ◌==◌, if◌then◌else◌, mul64}
use vgc_malloc.Memory.{
  null, Shared, shared_mutex, M, fault, pure, ◌>>=◌, ◌>>◌, when, set_shared, report,
}
use vgc_malloc.System.{System, mutex_init, mutexattr_init, mutexattr_destroy, mmap}

-- VGC_MALLOC_MMAP_PAGES
abbrev pub mmap_pages : ℕ
mmap_pages = 8000

-- The shared record as createShared fills it in; `pid` is still the zero of fresh memory.
abbrev pub started : (page_size : ℕ) → Shared
started page_size = record {
  pid = 0;
  page_size = page_size;
  mmap_block_first = null;
  mmap_block_count = 0;
  mmap_block_size = mul64 mmap_pages page_size;
  is_mprotect_enabled = true;
}

module _ (sys : System) where
  -- createShared, for the size of VGC_shared and the page size of the system. The result of mmap is
  -- compared with 0: MAP_FAILED passes the test, and is written to.
  unfoldable pub create_shared : (size page_size : ℕ) → M Bool
  create_shared size page_size = do
    got ← mmap sys size
    elim got [
      | none ↦ λ _. fault
      | some p ↦
          if p == null
          then (do
            report "mmap" "Fatal error" "can't create shared MMAP memory for VGC_shared"
            pure false)
          else (do set_shared (started page_size); pure true)
    ]

  -- initialiseMutex
  unfoldable pub initialise_mutex : M Bool
  initialise_mutex = do
    attr ← mutexattr_init sys shared_mutex
    if not attr
        then (do report "PTHREAD_mutexattrInit" "Fatal error" "mutex attr init failed"; pure false)
        else do
          made ← mutex_init sys shared_mutex
          if not made
              then (do
                report "PTHREAD_mutexInit" "Fatal error" "can't create shared mutex"
                destroyed ← mutexattr_destroy sys shared_mutex
                when (not destroyed) (
                    report "PTHREAD_mutexattrDestroy" "Fatal error"
                      "can't destroy shared attr mutex")
                pure false)
              else pure true

  -- initializeShared
  unfoldable pub initialize_shared : (size page_size : ℕ) → M Bool
  initialize_shared size page_size = do
    created ← create_shared size page_size
    if not created then pure false else initialise_mutex
