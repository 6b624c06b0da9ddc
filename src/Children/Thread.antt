-- ===== src/Children/Thread.antt =====
-- src/vgc_mprotect_mp.c: startChildThread and removeChildThread.
use vgc_malloc.Base.{ℕ, zero, suc, Bool, true, false, List, [], ◌∷◌, if◌then◌else◌}
use vgc_malloc.Pthread.Thread
use vgc_malloc.Network.{Answer, gives, fails, minus_one}
use vgc_malloc.Children.{
  Child, Calls, World, created, cancelled, joined, closed, unlinked, called, note, report,
}

-- What socket returns.
abbrev descriptor : Answer → ℕ
descriptor (gives fd) = fd
descriptor (fails e) = minus_one

module _ (sys : Calls) where
  -- startChildThread. The thread that it starts enters its socket in the entry, the first that
  -- manageCorruptionThread does.
  unfoldable pub start_child_thread : Child → World → Bool × Child × World
  start_child_thread c w =
      let o = Thread.create (sys.create w.calls) in
      if o.result
      then (
        true,
        record c {
          thread = sys.thread_id w.calls;
          socket_name = c.pid;
          socket_fd = descriptor (sys.socket (suc w.calls));
        },
        note (created c.pid) (called [] (called o.messages w)),
      )
      else (false, c, report "PTHREAD_create" "Error" "thread create failed" (called o.messages w))

  abbrev pub cancel_thread : ℕ → World → World
  cancel_thread t w =
      let o = Thread.cancel (sys.cancel w.calls) in
      let w' = called o.messages w in
      if o.result
      then note (cancelled t) w'
      else report "PTHREAD_cancel" "Error" "cancelling thread" w'

  abbrev pub join_thread : ℕ → World → World
  join_thread t w =
      let o = Thread.join (sys.join w.calls) in
      let w' = called o.messages w in
      if o.result then note (joined t) w' else report "PTHREAD_join" "Error" "joining thread" w'

  -- removeChildThread
  unfoldable pub remove_child_thread : Child → World → Child × World
  remove_child_thread c w =
      let w' = join_thread c.thread (cancel_thread c.thread w) in
      (
        record c { pid = 0; thread = 0 },
        note (unlinked c.socket_name) (note (closed c.socket_fd) w'),
      )

  -- `startChildThread(&children[pos])`
  unfoldable pub start_at : ℕ → List Child → World → Bool × List Child × World
  unfolding start_child_thread
  start_at n [] w = (false, [], w)
  start_at zero (c ∷ cs) w = let (b, c', w') = start_child_thread c w in (b, c' ∷ cs, w')
  start_at (suc n) (c ∷ cs) w = let (b, cs', w') = start_at n cs w in (b, c ∷ cs', w')
