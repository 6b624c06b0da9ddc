-- ===== src/Tests/Children.antt =====
-- The table of child processes at concrete inputs.
use vgc_malloc.Base.{
  ℕ, inl, inr, ◌==◌, if◌then◌else◌, eqb_false, Bool, ◌+◌, ◌≡◌, refl, none, some, [], ◌∷◌, true,
  false, arith,
}
use vgc_malloc.Errno.{success, econnrefused}
use vgc_malloc.Network.{gives, fails, do_socket, do_connect, do_write, do_read}
use vgc_malloc.Children.{Child, MprotectBlock, Calls, World, Family}
use vgc_malloc.Children.Table.{is_registered, claim, find_free_child, count_children}
use vgc_malloc.Pthread.Thread
use vgc_malloc.Children.Thread.{remove_child_thread}
use vgc_malloc.Children.Distribute.{
  exchange, distribute_child, proceed, distribute_loop, mprotect_distribute,
}
use vgc_malloc.Children.Server.{spinning, accept_loop, manage_corruption_thread}
use vgc_malloc.Children.Lifecycle.{
  enter, start_child_debug_corruption, start_child_mprotect, stop_child_mprotect, stop_mprotect,
  init_child_debug_corruption,
}
use vgc_malloc.Children.Unique.{IsUnique, operations-IsUnique}
use vgc_malloc.Children.Entry.{entries, start_child-enter, start_child-stop_child}
use vgc_malloc.Children.Deliver.{Distributed, deliveries, mprotect_distribute-Distributed}
use vgc_malloc.Children.Count.{stop_mprotect-count}
use vgc_malloc.Children.Spin.{Hangup, accept_loop-spins}

abbrev entry : ℕ → ℕ → Child
entry pid thread = record { pid = pid; thread = thread; socket_fd = pid + 3; socket_name = pid }

-- Every call succeeds; the first read gives a block of process 12, every further read the end of the
-- connection.
abbrev calls : Calls
calls = record {
  create = λ n. success;
  thread_id = λ n. 100 + n;
  cancel = λ n. success;
  join = λ n. success;
  socket = λ n. gives 20;
  bind = λ n. gives 0;
  listen = λ n. gives 0;
  accept = λ n. gives 21;
  connect = λ n. gives 0;
  write = λ n. gives 4;
  read = λ n. if n == 1 then gives 16 else gives 0;
  received = λ n b. record { header = 65536; protects = true; source = 12 };
  mprotect = λ n p. success;
  mkdir = λ n. success;
  entries = λ n. none;
  mmap = λ n k. some (entry 5 5 ∷ entry 6 6 ∷ []);
  munmap = λ n. success;
}

abbrev quiet : World
quiet = record { events = []; calls = 0; errno = success }

-- The processes 11 and 12 and two free entries.
abbrev family : Family
family = record {
  children = entry 11 1 ∷ entry 0 0 ∷ entry 12 2 ∷ entry 0 0 ∷ [];
  is_father = false;
  world = quiet;
}

find_free_child_runs : (find_free_child 13 family.children).0 ≡ some 1
unfolding find_free_child is_registered claim
find_free_child_runs = refl

count_children_runs : count_children family.children ≡ 2
unfolding count_children
count_children_runs = refl

distribute_runs :
    deliveries (mprotect_distribute calls 11 65536 true family).world.events
    ≡ (12, record { header = 65536; protects = true; source = 11 }) ∷ []
unfolding mprotect_distribute distribute_loop distribute_child proceed exchange remove_child_thread
    do_socket do_connect do_write do_read Thread.cancel Thread.join
distribute_runs = refl

-- No process listens: the first is removed from the table, and it gets no block.
abbrev refusing : Calls
refusing = record calls { connect = λ n. fails econnrefused }

distribute_removes :
    (mprotect_distribute refusing 11 65536 true family).children
    ≡ entry 11 1 ∷ entry 0 0 ∷ record (entry 12 2) { pid = 0; thread = 0 } ∷ entry 0 0 ∷ []
unfolding mprotect_distribute distribute_loop distribute_child proceed exchange remove_child_thread
    do_socket do_connect do_write do_read Thread.cancel Thread.join
distribute_removes = refl

server_runs :
    (manage_corruption_thread calls 5
      (calls.received 0 (record { header = 0; protects = true; source = 0 }))
      (entry 11 1)
      family).0.socket_fd
    ≡ 20
unfolding manage_corruption_thread
server_runs = refl

family-IsUnique : IsUnique family.children
unfolding is_registered
family-IsUnique = (inr refl, (inl refl, (inr refl, (inl refl, tt))))

operations-IsUnique_example :
    IsUnique (start_child_mprotect calls 13 family).children
    × IsUnique (stop_child_mprotect calls 13 family).children
    × ((header : ℕ) (protects : Bool)
        → IsUnique (mprotect_distribute calls 13 header protects family).children)
operations-IsUnique_example = operations-IsUnique calls 13 family family-IsUnique

start_child-enter_example :
    ((start_child_debug_corruption calls 13 family).children ≡ (enter calls 13 family).1.children)
    × ((start_child_debug_corruption calls 13 family).world ≡ (enter calls 13 family).1.world)
start_child-enter_example = start_child-enter calls 13 family

not_13 : is_registered 13 family.children ≡ false
unfolding is_registered
not_13 = refl

start_child-stop_child_example :
    entries (stop_child_mprotect calls 13 (start_child_mprotect calls 13 family)).children
    ≡ entries family.children
start_child-stop_child_example =
    start_child-stop_child calls 13 family
      (
        λ e. absurd (omega (arith, e)),
        (λ e. refl, (λ e. absurd (omega (arith, e)), (λ e. refl, tt))),
      )
      not_13

mprotect_distribute-Distributed_example :
    let b : MprotectBlock = record { header = 65536; protects = true; source = 11 } in
    let t = mprotect_distribute refusing 11 65536 true family in
    Distributed b family.children quiet (t.children, t.world)
mprotect_distribute-Distributed_example =
    mprotect_distribute-Distributed refusing 11 65536 true family

stop_mprotect-count_example :
    (count_children (stop_mprotect calls 11 family).0 ≡ 0)
    × (count_children (init_child_debug_corruption calls family).children ≡ 0)
stop_mprotect-count_example = stop_mprotect-count calls 11 family

abbrev empty_block : MprotectBlock
empty_block = record { header = 0; protects = false; source = 0 }

hangup : Hangup calls 11 0 21 empty_block
hangup = record {
  accepts = refl;
  reads = (15, refl);
  foreign = omega arith;
  changes = λ k p. refl;
  writes = λ k. (4, refl);
  hangs_up = λ k h. rw (eqb_false {a = k} {b = 1} (omega arith)) refl;
}

accept_loop-spins_example : accept_loop calls 1000 20 11 empty_block family ≡ spinning
accept_loop-spins_example = accept_loop-spins calls 11 21 empty_block family hangup 1000 20
