-- ===== src/Pthread/Laws.antt =====
-- When the wrappers return true, and what they print.
use vgc_malloc.Base.{◌≡◌, Bool, true, false, ◌⊎◌, ◌↔◌, ◌&&◌, refl, [], length, arith, if◌then◌else◌}
use vgc_malloc.Errno.{Errno, success, eownerdead}
use vgc_malloc.Pthread.{
  Outcome, and_also, mutex_lock, mutex_unlock, mutex_init, mutex_destroy, mutex_consistent,
  mutexattr_init, mutexattr_destroy, mutexattr_setrobust, mutexattr_setpshared, mutexattr_settype,
  mutexattr_getrobust, mutexattr_getpshared, mutexattr_gettype,
}
use vgc_malloc.Pthread.Rwlock.{
  rwlock_init, rwlock_destroy, rwlock_rd_lock, rwlock_try_rd_lock, rwlock_wr_lock,
  rwlock_try_wr_lock, rwlock_timed_rd_lock, rwlock_timed_wr_lock, rwlock_unlock, rwlockattr_destroy,
  rwlockattr_setpshared, rwlockattr_getpshared,
}
use vgc_malloc.Pthread.Thread.{create, kill, join, detach, cancel}

abbrev is_success : Errno → Bool
is_success success = true
is_success _ = false

-- PTHREAD_mutexLock returns true exactly if the lock was granted, or the owner had died and the
-- mutex was made consistent; and it prints nothing exactly if the lock was granted.
pub mutex_lock_result :
    (lock consistent destroy : Errno)
    → ((mutex_lock lock consistent destroy).result ≡ true
        ↔ (lock ≡ success) ⊎ ((lock ≡ eownerdead) × (consistent ≡ success)))
      × (((mutex_lock lock consistent destroy).messages ≡ []) ↔ (lock ≡ success))
unfolding mutex_lock mutex_consistent
mutex_lock_result lock c d = ground arith

setrobust-result : (e : Errno) → (mutexattr_setrobust e).result ≡ is_success e
unfolding mutexattr_setrobust
setrobust-result e = ground arith

setpshared-result : (e : Errno) → (mutexattr_setpshared e).result ≡ is_success e
unfolding mutexattr_setpshared
setpshared-result e = ground arith

settype-result : (e : Errno) → (mutexattr_settype e).result ≡ is_success e
unfolding mutexattr_settype
settype-result e = ground arith

and_also-result : (o p : Outcome) → (and_also o p).result ≡ (o.result && p.result)
and_also-result o p = ground arith

-- PTHREAD_mutexattrInit returns true exactly if all four calls return 0.
pub mutexattr_init_result :
    (init robust pshared type : Errno)
    → (mutexattr_init init robust pshared type).result
      ≡ (is_success init && ((is_success robust && is_success pshared) && is_success type))
unfolding mutexattr_init
mutexattr_init_result success r p t = rw (
  and_also-result (and_also (mutexattr_setrobust r) (mutexattr_setpshared p)) (mutexattr_settype t),
  and_also-result (mutexattr_setrobust r) (mutexattr_setpshared p),
  setrobust-result r,
  setpshared-result p,
  settype-result t,
)
mutexattr_init_result _ r p t = refl

-- The wrapper returns true exactly if its call returns 0, and prints a message exactly if not.
abbrev IsExact : (Errno → Outcome) → Type 0
IsExact f =
    (e : Errno)
    → ((f e).result ≡ is_success e) × (length (f e).messages ≡ (if is_success e then 0 else 1))

-- Each of these 28 wrappers of PTHREAD functions returns true exactly if its call returns 0; it prints
-- no message then, and one message otherwise.
pub pthread_wrappers-IsExact :
    IsExact mutex_unlock
    × IsExact mutex_init
    × IsExact mutex_destroy
    × IsExact mutex_consistent
    × IsExact mutexattr_destroy
    × IsExact mutexattr_setrobust
    × IsExact mutexattr_setpshared
    × IsExact mutexattr_settype
    × IsExact mutexattr_getrobust
    × IsExact mutexattr_getpshared
    × IsExact mutexattr_gettype
    × IsExact rwlock_init
    × IsExact rwlock_destroy
    × IsExact rwlock_rd_lock
    × IsExact rwlock_try_rd_lock
    × IsExact rwlock_wr_lock
    × IsExact rwlock_try_wr_lock
    × IsExact rwlock_timed_rd_lock
    × IsExact rwlock_timed_wr_lock
    × IsExact rwlock_unlock
    × IsExact rwlockattr_destroy
    × IsExact rwlockattr_setpshared
    × IsExact rwlockattr_getpshared
    × IsExact create
    × IsExact kill
    × IsExact join
    × IsExact detach
    × IsExact cancel
unfolding mutex_unlock mutex_init mutex_destroy mutex_consistent mutexattr_destroy
    mutexattr_setrobust mutexattr_setpshared mutexattr_settype mutexattr_getrobust
    mutexattr_getpshared mutexattr_gettype rwlock_init rwlock_destroy rwlock_rd_lock
    rwlock_try_rd_lock rwlock_wr_lock rwlock_try_wr_lock rwlock_timed_rd_lock rwlock_timed_wr_lock
    rwlock_unlock rwlockattr_destroy rwlockattr_setpshared rwlockattr_getpshared create kill join
    detach cancel
pthread_wrappers-IsExact = (
  λ e. ground arith,
  λ e. ground arith,
  λ e. ground arith,
  λ e. ground arith,
  λ e. ground arith,
  λ e. ground arith,
  λ e. ground arith,
  λ e. ground arith,
  λ e. ground arith,
  λ e. ground arith,
  λ e. ground arith,
  λ e. ground arith,
  λ e. ground arith,
  λ e. ground arith,
  λ e. ground arith,
  λ e. ground arith,
  λ e. ground arith,
  λ e. ground arith,
  λ e. ground arith,
  λ e. ground arith,
  λ e. ground arith,
  λ e. ground arith,
  λ e. ground arith,
  λ e. ground arith,
  λ e. ground arith,
  λ e. ground arith,
  λ e. ground arith,
  λ e. ground arith,
)
