-- ===== src/Malloc/Release.antt =====
-- vgc_free of src/vgc_malloc.c.
use vgc_malloc.Base.{ℕ, ◌-◌, ◌%◌, Bool, true, false, not, ◌&&◌, ◌==◌, if◌then◌else◌, sub64}
use vgc_malloc.Memory.{
  Ptr, null, check_mark, sizeof_malloc_header, free, shared_mutex, mmap_mutex, M, pure, ◌>>=◌, ◌>>◌,
  when, get_shared, report, load_mmap, store_mmap, load_block, store_block,
}
use vgc_malloc.System.{System, mutex_lock, mutex_destroy, mutexattr_destroy}
use vgc_malloc.Mprotect.{munprotect}
use vgc_malloc.Malloc.Locks.{unlock_or_report, unlock_shared, unlock_mmap}
use vgc_malloc.Malloc.Dump.{dump_printed}
use vgc_malloc.Malloc.Sizes.{first_malloc_header}
use vgc_malloc.Malloc.Check.{check_mmap_block, is_in_mmap_block}
use vgc_malloc.Malloc.Region.{free_mmap}
use vgc_malloc.Malloc.Block.{free_blocks_next, free_blocks_prev}

-- `ptr & ~(pageSize - 1)`: a page size is a power of two.
abbrev pub page_of : Bool → (page_size : ℕ) → Ptr → Ptr
page_of enabled page_size ptr = if enabled then ptr - ptr % page_size else ptr

module _ (sys : System) where
  -- `mmapBlock->next->prev = mmapBlock->prev` under the lock of the neighbour; false if the lock failed.
  unfoldable pub unlink_next : Ptr → M Bool
  unlink_next m = do
    h ← load_mmap m
    if h.next == null then pure true else do
      locked ← mutex_lock sys (mmap_mutex h.next)
      if not locked then pure false else (do
        n ← load_mmap h.next
        store_mmap h.next (record n { prev = h.prev })
        unlock_or_report sys (mmap_mutex h.next) "can't unlock mmapBlock->next mutex"
        pure true)

  -- `mmapBlock->prev->next = mmapBlock->next`, likewise.
  unfoldable pub unlink_prev : Ptr → M Bool
  unlink_prev m = do
    h ← load_mmap m
    if h.prev == null then pure true else do
      locked ← mutex_lock sys (mmap_mutex h.prev)
      if not locked then pure false else (do
        p ← load_mmap h.prev
        store_mmap h.prev (record p { next = h.next })
        unlock_or_report sys (mmap_mutex h.prev) "can't unlock mmapBlock->prev mutex"
        pure true)

  -- Both mutexes are given up.
  unfoldable pub unlock_both : Ptr → M (Unit {0})
  unlock_both m = do unlock_mmap sys m; unlock_shared sys

  -- The whole MMAP block is free: it leaves the list and is unmapped.
  unfoldable pub release_mmap : Ptr → M (Unit {0})
  release_mmap m = do
    after ← unlink_next m
    if not after
        then (do
          unlock_both m
          report "PTHREAD_mutexLock" "Error" "can't get lock on mmapBlock->next")
        else do
          before ← unlink_prev m
          if not before
              then (do
                unlock_both m
                report "PTHREAD_mutexLock" "Error" "can't get lock on mmapBlock->prev")
              else do
                unlock_mmap sys m
                destroyed ← mutex_destroy sys (mmap_mutex m)
                when (not destroyed)
                    (report "PTHREAD_mutexDestroy" "Error" "can't destroy mmapBlock mutex")
                attr ← mutexattr_destroy sys (mmap_mutex m)
                when (not attr)
                    (report "PTHREAD_mutexattrDestroy" "Error" "can't destroy attr mmapBlock mutex")
                free_mmap sys m
                unlock_shared sys

  -- The block becomes free and is joined with the free blocks beside it.
  unfoldable pub coalesce : Ptr → M (Unit {0})
  coalesce p = do
    b ← load_block p
    store_block p (record b { status = free })
    _ ← munprotect sys p
    free_blocks_next sys p
    free_blocks_prev sys p

  -- What vgc_free does after the joining: the whole MMAP block is free if its first block is the last.
  unfoldable pub release_if_free : Ptr → M (Unit {0})
  release_if_free m = do
    first ← load_block (first_malloc_header m)
    if first.next == null then release_mmap m else unlock_both m

  -- What vgc_free does with both mutexes held.
  unfoldable pub free_locked : Ptr → Ptr → M (Unit {0})
  free_locked m p = do
    sound ← check_mmap_block "vgc_free" m
    if not sound
        then (do
          unlock_both m
          report "checkMmapBlock" "Error" "The MMAP for vgc_free is unstable while freeing memory")
        else (do coalesce p; release_if_free m)

  -- What vgc_free does with the shared mutex held, for a pointer inside an MMAP block.
  unfoldable pub free_block : Ptr → M (Unit {0})
  free_block p = do
    b ← load_block p
    if not (b.check_start == check_mark && b.check_end == check_mark)
        then (do
          unlock_shared sys
          report "Free" "" ""
          report "mallocBlock" "Error" "wrong checksum in"
          dump_printed b.mmap_block)
        else do
          let m = b.mmap_block
          h ← load_mmap m
          if not (h.check_start == check_mark && h.check_end == check_mark)
              then (do
                unlock_shared sys
                report "Free" "" ""
                report "mmapBlock" "Error" "wrong checksum in"
                dump_printed m)
              else do
                store_mmap m (record h { elements = sub64 h.elements 1 })
                locked ← mutex_lock sys (mmap_mutex m)
                if not locked
                    then (do
                      unlock_shared sys
                      report "PTHREAD_mutexLock" "Error" "can't get lock on mmapBlock")
                    else free_locked m p

  -- vgc_free
  unfoldable pub vgc_free : Ptr → M (Unit {0})
  vgc_free ptr = if ptr == null then report "ptr" "Warning" "variable points to zero" else do
    locked ← mutex_lock sys shared_mutex
    if not locked then report "PTHREAD_mutexLock" "Error" "can't get lock on shared mutex" else do
      inside ← is_in_mmap_block ptr
      if not inside
          then (do unlock_shared sys; report "isInMmapBlock" "Error" "points outside of MMAP at")
          else do
            sh ← get_shared
            free_block (page_of sh.is_mprotect_enabled sh.page_size ptr - sizeof_malloc_header)
