-- ===== src/Malloc/Region.antt =====
-- allocMMAP, mmapBlockAllocate and freeMMAP of src/vgc_malloc.c. The counter of MMAP blocks is a
-- natural number: it counts at least the block that freeMMAP is called with.
use vgc_malloc.Base.{ℕ, suc, ◌-◌, ◌/◌, not, none, some, ◌==◌, if◌then◌else◌, sub64}
use vgc_malloc.Memory.{
  Ptr, null, map_failed, check_mark, sizeof_mmap_header, sizeof_malloc_header, free, mmap_mutex, M,
  pure, ◌>>=◌, ◌>>◌, when, get_shared, set_shared, report, load_mmap, store_mmap, store_block,
}
use vgc_malloc.System.{
  System, mutex_lock, mutex_unlock, mutex_init, mutexattr_init, mutexattr_destroy, mmap, munmap,
}
use vgc_malloc.Mprotect.{mprotect}
use vgc_malloc.Malloc.Sizes.{first_malloc_header}

module _ (sys : System) where
  -- `munmap(mmapBlock, mmapBlock->size)` with its message, and the result MAP_FAILED. The size is read
  -- from the header, which holds zero until it is filled in.
  unfoldable pub abandon : Ptr → M Ptr
  abandon m = do
    h ← load_mmap m
    done ← munmap sys m h.size
    when (not done) (report "munmap" "Error" "unmapping MMAP")
    pure map_failed

  -- Fills in the header of a locked block, its first malloc header, and unlocks it.
  unfoldable pub fill_mmap : Ptr → ℕ → Ptr → M Ptr
  fill_mmap m size last = do
    let max_size = sub64 (sub64 size sizeof_mmap_header) sizeof_malloc_header
    store_mmap m (record {
      check_start = check_mark;
      size = size;
      max_size = max_size;
      elements = 0;
      prev = last;
      next = 0;
      check_end = check_mark;
    })
    when (not (last == null)) (do h ← load_mmap last; store_mmap last (record h { next = m }))
    store_block (first_malloc_header m) (record {
      check_start = check_mark;
      size = max_size;
      status = free;
      mmap_block = m;
      prev = 0;
      next = 0;
      check_end = check_mark;
    })
    _ ← mprotect sys (first_malloc_header m)
    unlocked ← mutex_unlock sys (mmap_mutex m)
    if not unlocked
        then (do report "PTHREAD_mutexUnlock" "Error" "can't unlock mmapBlock mutex"; abandon m)
        else (do
          sh ← get_shared
          set_shared (record sh { mmap_block_count = suc sh.mmap_block_count })
          pure m)

  -- allocMMAP
  unfoldable pub alloc_mmap : ℕ → Ptr → M Ptr
  alloc_mmap size last = do
    got ← mmap sys size
    elim got [
      | none ↦ (do report "mmap" "Error" "no more memory available"; pure map_failed)
      | some m ↦ do
        attr ← mutexattr_init sys (mmap_mutex m)
        if not attr
            then (do
              report "PTHREAD_mutexattrInit" "Error" "mmapBlock mutex attr init failed"
              abandon m)
            else do
              made ← mutex_init sys (mmap_mutex m)
              if not made
                  then (do
                    report "PTHREAD_mutexInit" "Error" "can't create mutex on mmapBlock"
                    destroyed ← mutexattr_destroy sys (mmap_mutex m)
                    when (not destroyed) (
                        report "PTHREAD_mutexattrDestroy" "Error"
                          "can't destroy mutex on mmapBlock")
                    abandon m)
                  else do
                    locked ← mutex_lock sys (mmap_mutex m)
                    if not locked
                        then (do
                          report "PTHREAD_mutexLock" "Error" "can't get lock on mmapBlock"
                          abandon m)
                        else fill_mmap m size last
    ]

  -- mmapBlockAllocate: on failure a second try with a tenth of the size.
  unfoldable pub mmap_block_allocate : ℕ → Ptr → M Ptr
  mmap_block_allocate size last = do
    m ← alloc_mmap size last
    if m == map_failed
        then (do
          n ← alloc_mmap (size / 10) last
          when (n == map_failed) (report "allocMMAP" "Error" "can't get enough memory for MMAP")
          pure n)
        else pure m

  -- freeMMAP
  unfoldable pub free_mmap : Ptr → M (Unit {0})
  free_mmap m = do
    sh ← get_shared
    set_shared (record sh {
      mmap_block_count = sh.mmap_block_count - 1;
      mmap_block_first = if m == sh.mmap_block_first then null else sh.mmap_block_first;
    })
    h ← load_mmap m
    done ← munmap sys m h.size
    when (not done) (report "munmap" "Error" "unmapping MMAP")
