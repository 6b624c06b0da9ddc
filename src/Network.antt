-- ===== src/Network.antt =====
-- src/vgc_network.c: the wrappers of socket calls. A call answers with a number or fails with an
-- error number; the answer is an argument, since the calls are the system's. The wrapper's result is a
-- truth value, the number it stores, and the message it prints. The buffers are not modelled.
pub mod Laws
use vgc_malloc.Base.{ℕ, Bool, true, false, String, List, [], ◌∷◌, ◌-◌, leb, if◌then◌else◌, word_mod}
use vgc_malloc.Errno
use vgc_malloc.Errno.{Errno, other, Message, message}

-- The answer of a call: its result, or -1 with `errno`.
pub data Answer : Type 0 where
  gives : ℕ → Answer
  fails : Errno → Answer

-- The errors that do_bind has labels for.
unfoldable pub bind_labels : Errno → Bool
bind_labels Errno.eacces = true
bind_labels Errno.eaddrinuse = true
bind_labels Errno.ebadf = true
bind_labels Errno.einval = true
bind_labels Errno.enotsock = true
bind_labels Errno.eaddrnotavail = true
bind_labels Errno.efault = true
bind_labels Errno.eloop = true
bind_labels Errno.enametoolong = true
bind_labels Errno.enoent = true
bind_labels Errno.enomem = true
bind_labels Errno.enotdir = true
bind_labels Errno.erofs = true
bind_labels _ = false

-- The errors that do_listen has labels for.
unfoldable pub listen_labels : Errno → Bool
listen_labels Errno.eaddrinuse = true
listen_labels Errno.ebadf = true
listen_labels Errno.enotsock = true
listen_labels Errno.eopnotsupp = true
listen_labels _ = false

-- The errors that do_accept has labels for.
unfoldable pub accept_labels : Errno → Bool
accept_labels Errno.eagain = true
accept_labels Errno.ebadf = true
accept_labels Errno.econnaborted = true
accept_labels Errno.efault = true
accept_labels Errno.eintr = true
accept_labels Errno.einval = true
accept_labels Errno.emfile = true
accept_labels Errno.enfile = true
accept_labels Errno.enobufs = true
accept_labels Errno.enomem = true
accept_labels Errno.enotsock = true
accept_labels Errno.eopnotsupp = true
accept_labels Errno.eproto = true
accept_labels Errno.eperm = true
accept_labels _ = false

-- The errors that do_read has labels for.
unfoldable pub read_labels : Errno → Bool
read_labels Errno.eagain = true
read_labels Errno.ebadf = true
read_labels Errno.efault = true
read_labels Errno.eintr = true
read_labels Errno.einval = true
read_labels Errno.eio = true
read_labels Errno.eisdir = true
read_labels _ = false

-- The errors that do_write has labels for.
unfoldable pub write_labels : Errno → Bool
write_labels Errno.eagain = true
write_labels Errno.ebadf = true
write_labels Errno.edestaddrreq = true
write_labels Errno.edquot = true
write_labels Errno.efault = true
write_labels Errno.efbig = true
write_labels Errno.eintr = true
write_labels Errno.einval = true
write_labels Errno.eio = true
write_labels Errno.enospc = true
write_labels Errno.eperm = true
write_labels Errno.epipe = true
write_labels _ = false

-- The errors that do_socket has labels for.
unfoldable pub socket_labels : Errno → Bool
socket_labels Errno.eacces = true
socket_labels Errno.eafnosupport = true
socket_labels Errno.einval = true
socket_labels Errno.emfile = true
socket_labels Errno.enfile = true
socket_labels Errno.enobufs = true
socket_labels Errno.enomem = true
socket_labels Errno.eprotonosupport = true
socket_labels _ = false

-- The errors that do_connect has labels for.
unfoldable pub connect_labels : Errno → Bool
connect_labels Errno.eacces = true
connect_labels Errno.eperm = true
connect_labels Errno.eaddrinuse = true
connect_labels Errno.eaddrnotavail = true
connect_labels Errno.eafnosupport = true
connect_labels Errno.eagain = true
connect_labels Errno.ealready = true
connect_labels Errno.ebadf = true
connect_labels Errno.econnrefused = true
connect_labels Errno.efault = true
connect_labels Errno.einprogress = true
connect_labels Errno.eintr = true
connect_labels Errno.eisconn = true
connect_labels Errno.enetunreach = true
connect_labels Errno.enotsock = true
connect_labels Errno.eprototype = true
connect_labels Errno.etimedout = true
connect_labels _ = false

-- The message after a failed call.
abbrev pub failure : String → Bool → Message
failure call true = message "Error" call ""
failure call false = message "Unknown error" call ""

-- A wrapper's truth value, what it stores through its pointer, and its messages.
pub record Reply : Type 0 where
  pub result : Bool
  pub stored : ℕ
  pub messages : List Message

abbrev pub reply : Bool → ℕ → List Message → Reply
reply b n ms = record { result = b; stored = n; messages = ms }

-- -1 in 64 bits: as a `size_t`, and as the descriptor that a failed call stores.
abbrev pub minus_one : ℕ
minus_one = word_mod - 1

-- do_bind
unfoldable pub do_bind : Answer → Reply
unfolding bind_labels
do_bind (gives n) = reply true 0 []
do_bind (fails e) = reply false 0 (failure "bind" (bind_labels e) ∷ [])

-- do_listen
unfoldable pub do_listen : Answer → Reply
unfolding listen_labels
do_listen (gives n) = reply true 0 []
do_listen (fails e) = reply false 0 (failure "listen" (listen_labels e) ∷ [])

-- do_accept
unfoldable pub do_accept : Answer → Reply
unfolding accept_labels
do_accept (gives n) = reply true n []
do_accept (fails e) = reply false minus_one (failure "accept" (accept_labels e) ∷ [])

-- do_write
unfoldable pub do_write : Answer → Reply
unfolding write_labels
do_write (gives n) = reply true 0 []
do_write (fails e) = reply false 0 (failure "write" (write_labels e) ∷ [])

-- do_socket
unfoldable pub do_socket : Answer → Reply
unfolding socket_labels
do_socket (gives n) = reply true n []
do_socket (fails e) = reply false minus_one (failure "socket" (socket_labels e) ∷ [])

-- do_connect
unfoldable pub do_connect : Answer → Reply
unfolding connect_labels
do_connect (gives n) = reply true 0 []
do_connect (fails e) = reply false 0 (failure "connect" (connect_labels e) ∷ [])

-- The number that `read` returns, stored as a `size_t`.
abbrev pub read_bytes : Answer → ℕ
read_bytes (gives n) = n
read_bytes (fails e) = minus_one

-- `errno` after the call; 0 stands for one that the call did not set.
abbrev pub error_of : Answer → Errno
error_of (gives n) = other 0
error_of (fails e) = e

-- do_read: the test `*readBytes >= 0` is one of unsigned numbers.
unfoldable pub do_read : Answer → Reply
unfolding read_labels
do_read a =
    if leb 0 (read_bytes a)
    then reply true (read_bytes a) []
    else reply false (read_bytes a) (failure "read" (read_labels (error_of a)) ∷ [])
