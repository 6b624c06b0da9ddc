-- ===== src/Pthread/Thread.antt =====
-- src/vgc_pthread.c, the wrappers of threads.
use vgc_malloc.Errno.{Errno, success, eagain, edeadlk, einval, eperm, esrch}
use vgc_malloc.Pthread.{Outcome, done, failed}

-- PTHREAD_create
unfoldable pub create : Errno → Outcome
create success = done
create eagain = failed "pthread_create" "status EAGAIN"
create einval = failed "pthread_create" "status EINVAL"
create eperm = failed "pthread_create" "status EPERM"
create _ = failed "pthread_create" "unknown error"

-- PTHREAD_kill
unfoldable pub kill : Errno → Outcome
kill success = done
kill esrch = failed "pthread_kill" "status ESRCH"
kill einval = failed "pthread_kill" "status EINVAL"
kill _ = failed "pthread_kill" "unknown error"

-- PTHREAD_join
unfoldable pub join : Errno → Outcome
join success = done
join edeadlk = failed "pthread_join" "status EDEADLK"
join einval = failed "pthread_join" "status EINVAL"
join esrch = failed "pthread_join" "status ESRCH"
join _ = failed "pthread_join" "unknown error"

-- PTHREAD_detach
unfoldable pub detach : Errno → Outcome
detach success = done
detach einval = failed "pthread_detach" "status EINVAL"
detach esrch = failed "pthread_detach" "status ESRCH"
detach _ = failed "pthread_detach" "unknown error"

-- PTHREAD_cancel
unfoldable pub cancel : Errno → Outcome
cancel success = done
cancel esrch = failed "pthread_cancel" "status ESRCH"
cancel _ = failed "pthread_cancel" "unknown error"
