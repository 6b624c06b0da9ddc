-- ===== src/Pthread.antt =====
-- src/vgc_pthread.c, the mutex and mutex-attribute wrappers; those of read-write locks and of
-- threads are in its children. A wrapper calls one pthread function
-- and turns its return code into a truth value and the message it prints. The code that the pthread
-- function returns is an argument, since the pthread library is not part of the program.
pub mod Rwlock
pub mod Thread
pub mod Laws
use vgc_malloc.Base.{String, Bool, true, false, List, [], ◌∷◌, ◌++◌, if◌then◌else◌}
use vgc_malloc.Errno.{
  Errno, success, eownerdead, enotrecoverable, eagain, edeadlk, enomem, eperm, ebusy, einval,
  efault, Message, message,
}

-- The result of a wrapper, and what it prints.
pub record Outcome : Type 0 where
  pub result : Bool
  pub messages : List Message

abbrev pub done : Outcome
done = record { result = true; messages = [] }

abbrev pub failed : String → String → Outcome
failed call status = record { result = false; messages = message call "Error" status ∷ [] }

unfoldable pub mutex_consistent : Errno → Outcome
mutex_consistent success = done
mutex_consistent einval = failed "pthread_mutex_consistent" "status EINVAL"
mutex_consistent _ = failed "pthread_mutex_consistent" "unknown error"

unfoldable pub mutex_destroy : Errno → Outcome
mutex_destroy success = done
mutex_destroy einval = failed "pthread_mutex_destroy" "status EINVAL"
mutex_destroy _ = failed "pthread_mutex_destroy" "unknown error"

-- The codes of pthread_mutex_lock, and of the two functions that are called after it.
unfoldable pub mutex_lock : (lock consistent destroy : Errno) → Outcome
unfolding mutex_consistent mutex_destroy
mutex_lock success c d = done
mutex_lock eownerdead c d =
    let o = mutex_consistent c in
    record {
      result = o.result;
      messages = message "pthread_mutex_lock" "Warning" "status EOWNERDEAD" ∷ o.messages;
    }
mutex_lock enotrecoverable c d = record {
  result = false;
  messages =
      message "pthread_mutex_lock" "Error" "status ENOTRECOVERABLE" ∷ (mutex_destroy d).messages;
}
mutex_lock eagain c d = failed "pthread_mutex_lock" "status EAGAIN"
mutex_lock edeadlk c d = failed "pthread_mutex_lock" "status EDEADLK"
mutex_lock enomem c d = failed "pthread_mutex_lock" "status ENOMEM"
mutex_lock _ c d = failed "pthread_mutex_lock" "unknown error"

unfoldable pub mutex_unlock : Errno → Outcome
mutex_unlock success = done
mutex_unlock eperm = failed "pthread_mutex_unlock" "status EPERM"
mutex_unlock _ = failed "pthread_mutex_unlock" "unknown error"

unfoldable pub mutex_init : Errno → Outcome
mutex_init success = done
mutex_init ebusy = failed "pthread_mutex_init" "status EBUSY"
mutex_init einval = failed "pthread_mutex_init" "status EINVAL"
mutex_init efault = failed "pthread_mutex_init" "status FAULT"
mutex_init _ = failed "pthread_mutex_init" "unknown error"

unfoldable pub mutexattr_destroy : Errno → Outcome
mutexattr_destroy success = done
mutexattr_destroy einval = failed "pthread_mutexattr_destroy" "status EINVAL"
mutexattr_destroy _ = failed "pthread_mutexattr_destroy" "unknown error"

unfoldable pub mutexattr_setrobust : Errno → Outcome
mutexattr_setrobust success = done
mutexattr_setrobust einval = failed "pthread_mutexattr_setrobust" "status EINVAL"
mutexattr_setrobust _ = failed "pthread_mutexattr_setrobust" "unknown error"

unfoldable pub mutexattr_setpshared : Errno → Outcome
mutexattr_setpshared success = done
mutexattr_setpshared einval = failed "pthread_mutexattr_setpshared" "status EINVAL"
mutexattr_setpshared _ = failed "pthread_mutexattr_setpshared" "unknown error"

unfoldable pub mutexattr_settype : Errno → Outcome
mutexattr_settype success = done
mutexattr_settype einval = failed "pthread_mutexattr_settype" "status EINVAL"
mutexattr_settype _ = failed "pthread_mutexattr_settype" "unknown error"

unfoldable pub mutexattr_getrobust : Errno → Outcome
mutexattr_getrobust success = done
mutexattr_getrobust einval = failed "pthread_mutexattr_getrobust" "status EINVAL"
mutexattr_getrobust _ = failed "pthread_mutexattr_getrobust" "unknown error"

unfoldable pub mutexattr_getpshared : Errno → Outcome
mutexattr_getpshared success = done
mutexattr_getpshared einval = failed "pthread_mutexattr_getpshared" "status EINVAL"
mutexattr_getpshared _ = failed "pthread_mutexattr_getpshared" "unknown error"

unfoldable pub mutexattr_gettype : Errno → Outcome
mutexattr_gettype success = done
mutexattr_gettype einval = failed "pthread_mutexattr_gettype" "status EINVAL"
mutexattr_gettype _ = failed "pthread_mutexattr_gettype" "unknown error"

-- `ret = ret && next`: the next call is made only if the earlier ones returned true.
abbrev pub and_also : Outcome → Outcome → Outcome
and_also o p =
    if o.result then record { result = p.result; messages = o.messages ++ p.messages } else o

-- The codes of pthread_mutexattr_init and of the three setters that follow it.
unfoldable pub mutexattr_init : (init robust pshared type : Errno) → Outcome
unfolding mutexattr_setrobust mutexattr_setpshared mutexattr_settype
mutexattr_init success r p t =
    and_also (and_also (mutexattr_setrobust r) (mutexattr_setpshared p)) (mutexattr_settype t)
mutexattr_init enomem r p t = failed "pthread_mutexattr_init" "status ENOMEM"
mutexattr_init _ r p t = failed "pthread_mutexattr_init" "unknown error"
