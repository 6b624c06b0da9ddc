-- ===== src/Tests/Wrappers.antt =====
-- The theorems on the wrappers at concrete inputs.
use vgc_malloc.Base.{◌≡◌, true, ◌⊎◌, ◌↔◌, []}
use vgc_malloc.Errno.{success, eownerdead}
use vgc_malloc.Pthread.{mutex_lock}
use vgc_malloc.Pthread.Laws.{mutex_lock_result}

mutex_lock_result_example :
    ((mutex_lock eownerdead success success).result ≡ true
      ↔ (eownerdead ≡ success) ⊎ ((eownerdead ≡ eownerdead) × (success ≡ success)))
    × (((mutex_lock eownerdead success success).messages ≡ []) ↔ (eownerdead ≡ success))
mutex_lock_result_example = mutex_lock_result eownerdead success success
