-- ===== src/Network/Laws.antt =====
-- When the socket wrappers return true.
use vgc_malloc.Base.{◌≡◌, Bool, true, false, [], arith, length, if◌then◌else◌}
use vgc_malloc.Network.{
  Answer, gives, fails, Reply, read_bytes, do_bind, do_listen, do_accept, do_write, do_socket,
  do_connect, do_read,
}

abbrev is_given : Answer → Bool
is_given (gives n) = true
is_given (fails e) = false

-- The wrapper returns true exactly if its call did not fail, and prints a message exactly if it did.
abbrev IsExact : (Answer → Reply) → Type 0
IsExact f =
    (a : Answer)
    → ((f a).result ≡ is_given a) × (length (f a).messages ≡ (if is_given a then 0 else 1))

-- do_bind, do_listen, do_accept, do_write, do_socket and do_connect return true exactly if their call
-- did not fail, and print one message if it failed and none if not.
pub socket_wrappers-IsExact :
    IsExact do_bind
    × IsExact do_listen
    × IsExact do_accept
    × IsExact do_write
    × IsExact do_socket
    × IsExact do_connect
unfolding do_bind do_listen do_accept do_write do_socket do_connect
socket_wrappers-IsExact = (
  λ a. ground arith,
  λ a. ground arith,
  λ a. ground arith,
  λ a. ground arith,
  λ a. ground arith,
  λ a. ground arith,
)

-- do_read returns true and prints nothing whatever `read` answers, a failure included; it stores the
-- number of bytes read, or 2 ^ 64 - 1 where `read` fails.
pub do_read_always_true :
    (a : Answer) → do_read a ≡ record { result = true; stored = read_bytes a; messages = [] }
unfolding do_read
do_read_always_true a = ground arith
