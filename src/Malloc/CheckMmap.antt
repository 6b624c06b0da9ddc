-- ===== src/Malloc/CheckMmap.antt =====
-- vgc_mallocCheckMMAP of src/vgc_malloc.c.
use vgc_malloc.Base.{ℕ, zero, suc, not, Option, ◌==◌, if◌then◌else◌}
use vgc_malloc.Memory.{
  Ptr, null, M, shared_mutex, mmap_mutex, out_of_fuel, pure, ◌>>=◌, ◌>>◌, when, get_shared, report,
  load_mmap,
}
use vgc_malloc.System.{System, mutex_lock}
use vgc_malloc.Malloc.Locks.{unlock_or_report}
use vgc_malloc.Malloc.Check.{check_mmap_block}
use vgc_malloc.Malloc.Dump.{Line, Response, Traces, show_trace, dump_mmap_block}

module _ (width : Line → ℕ) (tr : Traces) (sys : System) where
  -- The loop of vgc_mallocCheckMMAP.
  unfoldable pub check_mmaps : ℕ → Option Response → (size : ℕ) → Ptr → M (Option Response)
  check_mmaps zero r size m = λ _. out_of_fuel
  check_mmaps (suc k) r size m = if m == null then pure r else do
    locked ← mutex_lock sys (mmap_mutex m)
    when (not locked) (report "PTHREAD_mutexLock" "Error" "can't get lock on mmapBlock")
    sound ← check_mmap_block "Debug memory" m
    when (not sound) (report "Debug memory" "Found memory problem" "Error")
    r' ← dump_mmap_block width (show_trace tr) r size m
    unlock_or_report sys (mmap_mutex m) "can't unlock mmapBlock mutex"
    h ← load_mmap m
    check_mmaps k r' size h.next

  -- vgc_mallocCheckMMAP
  unfoldable pub malloc_check_mmap : Option Response → (size : ℕ) → M (Option Response)
  malloc_check_mmap r size = do
    locked ← mutex_lock sys shared_mutex
    when (not locked) (report "PTHREAD_mutexLock" "Error" "can't get lock on shared mutex")
    sh ← get_shared
    r' ← check_mmaps (suc sh.mmap_block_count) r size sh.mmap_block_first
    unlock_or_report sys shared_mutex "can't unlock shared mutex"
    pure r'
