-- ===== src/Errno.antt =====
-- The error numbers that src/vgc_pthread.c and src/vgc_network.c tell apart. EAGAIN and EWOULDBLOCK
-- are one constructor: the source compiles the second label only where the two differ.
use vgc_malloc.Base.{ℕ, String}

-- `success` is the return value 0 of a pthread function; `other` is a number with no label.
pub data Errno : Type 0 where
  success eownerdead enotrecoverable eagain edeadlk enomem eperm ebusy einval efault : Errno
  etimedout esrch eacces eaddrinuse ebadf enotsock eaddrnotavail eloop enametoolong enoent : Errno
  enotdir erofs eopnotsupp econnaborted eintr emfile enfile enobufs eproto eio eisdir : Errno
  edestaddrreq edquot efbig enospc epipe eafnosupport eprotonosupport ealready : Errno
  econnrefused einprogress eisconn enetunreach eprototype : Errno
  other : ℕ → Errno

-- What the program hands to `vgc_message` at ERROR_LEVEL: title, subtitle and status.
pub record Message : Type 0 where
  pub title : String
  pub subtitle : String
  pub status : String

abbrev pub message : String → String → String → Message
message t u v = record { title = t; subtitle = u; status = v }
