-- ===== src/Malloc/Locks.antt =====
-- The unlocking of src/vgc_malloc.c: `if (!PTHREAD_mutexUnlock(…)) vgc_message(…)`.
use vgc_malloc.Base.{String, not}
use vgc_malloc.Memory.{Ptr, Mutex, shared_mutex, mmap_mutex, M, ◌>>=◌, when, report, State}
use vgc_malloc.Memory.Ends
use vgc_malloc.Memory.Ends.{Ends, Same, After-Same}
use vgc_malloc.System.Laws.{mutex_unlock-Same, when-report-Same}
use vgc_malloc.System.{System, mutex_unlock}

module _ (sys : System) where
  unfoldable pub unlock_or_report : Mutex → String → M (Unit {0})
  unlock_or_report m status = do
    unlocked ← mutex_unlock sys m
    when (not unlocked) (report "PTHREAD_mutexUnlock" "Error" status)

  abbrev pub unlock_shared : M (Unit {0})
  unlock_shared = unlock_or_report shared_mutex "can't unlock shared mutex"

  abbrev pub unlock_mmap : Ptr → M (Unit {0})
  unlock_mmap m = unlock_or_report (mmap_mutex m) "can't unlock mmapBlock mutex"

  pub unlock_or_report-Same :
      (m : Mutex) (status : String) (s : State)
      → Ends (λ a t. Same s t) (unlock_or_report m status s)
  unfolding unlock_or_report
  unlock_or_report-Same m status s =
      Ends.seq {Q = λ a t. Same s t} _ (mutex_unlock-Same sys m s) λ unlocked t same.
        Ends.weaken (when-report-Same (not unlocked) "PTHREAD_mutexUnlock" "Error" status t)
          λ a u same'. After-Same same same'
