-- ===== src/Pthread/Rwlock.antt =====
-- src/vgc_pthread.c, the wrappers of read-write locks and their attributes.
use vgc_malloc.Errno.{Errno, success, eagain, ebusy, edeadlk, einval, enomem, eperm, etimedout}
use vgc_malloc.Pthread.{Outcome, done, failed}

-- PTHREAD_rwlockInit
unfoldable pub rwlock_init : Errno → Outcome
rwlock_init success = done
rwlock_init eagain = failed "pthread_rwlock_init" "status EAGAIN"
rwlock_init enomem = failed "pthread_rwlock_init" "status ENOMEM"
rwlock_init eperm = failed "pthread_rwlock_init" "status EPERM"
rwlock_init ebusy = failed "pthread_rwlock_init" "status EBUSY"
rwlock_init einval = failed "pthread_rwlock_init" "status EINVAL"
rwlock_init _ = failed "pthread_rwlock_init" "unknown error"

-- PTHREAD_rwlockDestroy
unfoldable pub rwlock_destroy : Errno → Outcome
rwlock_destroy success = done
rwlock_destroy ebusy = failed "pthread_rwlock_destroy" "status EBUSY"
rwlock_destroy einval = failed "pthread_rwlock_destroy" "status EINVAL"
rwlock_destroy _ = failed "pthread_rwlock_destroy" "unknown error"

-- PTHREAD_rwlockRdLock
unfoldable pub rwlock_rd_lock : Errno → Outcome
rwlock_rd_lock success = done
rwlock_rd_lock einval = failed "pthread_rwlock_rdlock" "status EINVAL"
rwlock_rd_lock eagain = failed "pthread_rwlock_rdlock" "status EAGAIN"
rwlock_rd_lock edeadlk = failed "pthread_rwlock_rdlock" "status EDEADLK"
rwlock_rd_lock _ = failed "pthread_rwlock_rdlock" "unknown error"

-- PTHREAD_rwlockTryRdLock
unfoldable pub rwlock_try_rd_lock : Errno → Outcome
rwlock_try_rd_lock success = done
rwlock_try_rd_lock ebusy = failed "pthread_rwlock_tryrdlock" "status EBUSY"
rwlock_try_rd_lock einval = failed "pthread_rwlock_tryrdlock" "status EINVAL"
rwlock_try_rd_lock eagain = failed "pthread_rwlock_tryrdlock" "status EAGAIN"
rwlock_try_rd_lock _ = failed "pthread_rwlock_tryrdlock" "unknown error"

-- PTHREAD_rwlockWrLock
unfoldable pub rwlock_wr_lock : Errno → Outcome
rwlock_wr_lock success = done
rwlock_wr_lock einval = failed "pthread_rwlock_wrlock" "status EINVAL"
rwlock_wr_lock edeadlk = failed "pthread_rwlock_wrlock" "status EDEADLK"
rwlock_wr_lock _ = failed "pthread_rwlock_wrlock" "unknown error"

-- PTHREAD_rwlockTryWrLock
unfoldable pub rwlock_try_wr_lock : Errno → Outcome
rwlock_try_wr_lock success = done
rwlock_try_wr_lock ebusy = failed "pthread_rwlock_trywrlock" "status EBUSY"
rwlock_try_wr_lock einval = failed "pthread_rwlock_trywrlock" "status EINVAL"
rwlock_try_wr_lock _ = failed "pthread_rwlock_trywrlock" "unknown error"

-- PTHREAD_rwlockTimedRdLock
unfoldable pub rwlock_timed_rd_lock : Errno → Outcome
rwlock_timed_rd_lock success = done
rwlock_timed_rd_lock etimedout = failed "pthread_rwlock_timedrdlock" "status ETIMEDOUT"
rwlock_timed_rd_lock eagain = failed "pthread_rwlock_timedrdlock" "status EAGAIN"
rwlock_timed_rd_lock edeadlk = failed "pthread_rwlock_timedrdlock" "status EDEADLK"
rwlock_timed_rd_lock einval = failed "pthread_rwlock_timedrdlock" "status EINVAL"
rwlock_timed_rd_lock _ = failed "pthread_rwlock_timedrdlock" "unknown error"

-- PTHREAD_rwlockTimedWrLock
unfoldable pub rwlock_timed_wr_lock : Errno → Outcome
rwlock_timed_wr_lock success = done
rwlock_timed_wr_lock etimedout = failed "pthread_rwlock_timedwrlock" "status ETIMEDOUT"
rwlock_timed_wr_lock edeadlk = failed "pthread_rwlock_timedwrlock" "status EDEADLK"
rwlock_timed_wr_lock einval = failed "pthread_rwlock_timedwrlock" "status EINVAL"
rwlock_timed_wr_lock _ = failed "pthread_rwlock_timedwrlock" "unknown error"

-- PTHREAD_rwlockUnlock
unfoldable pub rwlock_unlock : Errno → Outcome
rwlock_unlock success = done
rwlock_unlock einval = failed "pthread_rwlock_unlock" "status EINVAL"
rwlock_unlock eperm = failed "pthread_rwlock_unlock" "status EPERM"
rwlock_unlock _ = failed "pthread_rwlock_unlock" "unknown error"

-- PTHREAD_rwlockattrDestroy
unfoldable pub rwlockattr_destroy : Errno → Outcome
rwlockattr_destroy success = done
rwlockattr_destroy einval = failed "pthread_rwlockattr_destroy" "status EINVAL"
rwlockattr_destroy _ = failed "pthread_rwlockattr_destroy" "unknown error"

-- PTHREAD_rwlockattrSetpshared
unfoldable pub rwlockattr_setpshared : Errno → Outcome
rwlockattr_setpshared success = done
rwlockattr_setpshared einval = failed "pthread_rwlockattr_setpshared" "status EINVAL"
rwlockattr_setpshared _ = failed "pthread_rwlockattr_setpshared" "unknown error"

-- PTHREAD_rwlockattrGetpshared
unfoldable pub rwlockattr_getpshared : Errno → Outcome
rwlockattr_getpshared success = done
rwlockattr_getpshared einval = failed "pthread_rwlockattr_getpshared" "status EINVAL"
rwlockattr_getpshared _ = failed "pthread_rwlockattr_getpshared" "unknown error"

-- PTHREAD_rwlockattrInit: the codes of pthread_rwlockattr_init and of the setter that follows it.
unfoldable pub rwlockattr_init : (init pshared : Errno) → Outcome
unfolding rwlockattr_setpshared
rwlockattr_init success p = rwlockattr_setpshared p
rwlockattr_init enomem p = failed "pthread_rwlockattr_init" "status ENOMEM"
rwlockattr_init _ p = failed "pthread_rwlockattr_init" "unknown error"
