-- ===== src/Children/Spin.antt =====
-- The server of a process after its peer has closed the connection.
use vgc_malloc.Base.{
  ℕ, zero, suc, ◌≡◌, ◌≢◌, refl, ap, ◌∙◌, ◌≤◌, ◌<◌, Bool, true, List, [], ◌∷◌, arith, eqb_false,
}
use vgc_malloc.Errno.{success}
use vgc_malloc.Memory.{Ptr}
use vgc_malloc.Network.{reply, read_bytes, gives, do_write, do_read, do_accept}
use vgc_malloc.Network.Laws.{do_read_always_true}
use vgc_malloc.Children.{Child, MprotectBlock, Calls, World, Family, called}
use vgc_malloc.Children.Thread.{remove_child_thread}
use vgc_malloc.Children.Distribute.{
  Exchange, answered, no_socket, lost, exchange, distribute_child, proceed, distribute_loop,
  mprotect_distribute,
}
use vgc_malloc.Children.Server.{
  on_world, spinning, change_page, reply_to, serve_block, judge, after_read, serve_step, serve_loop,
  accept_loop,
}

le_trans : {a b c : ℕ} → a ≤ b → b ≤ c → a ≤ c
le_trans h k = omega arith

judge_foreign :
    (sys : Calls) (fd self k : ℕ) (block : MprotectBlock) (t : Family) (x : Bool × Family)
    → self ≢ block.source
    → judge sys fd self (reply true (suc k) []) block t x ≡ (x.0, block, x.1)
unfolding judge
judge_foreign sys fd self k block t x h =
    rw (eqb_false {a = self} {b = block.source} h, eqb_false {a = suc k} {b = 0} (omega arith)) refl

module _ (sys : Calls) where
  -- A call has a greater number than those before it.
  exchange-calls :
      (c : Child) (b : MprotectBlock) (w : World) → w.calls ≤ (exchange sys c b w).1.calls
  unfolding exchange
  exchange-calls c b w = ground arith

  remove_child_thread-calls :
      (c : Child) (w : World) → w.calls ≤ (remove_child_thread sys c w).1.calls
  unfolding remove_child_thread
  remove_child_thread-calls c w = ground arith

  distribute_child-calls :
      (b : MprotectBlock) (c : Child) (w : World) → w.calls ≤ (distribute_child sys b c w).1.calls
  unfolding distribute_child
  distribute_child-calls b c w = ground (arith, exchange-calls c b w)

  proceed-calls :
      (e : Exchange) (c : Child) (cs : List Child) (w : World) (r : List Child × World)
      → w.calls ≤ r.1.calls
      → w.calls ≤ (proceed sys e c cs w r).1.calls
  unfolding proceed
  proceed-calls answered c cs w r h = h
  proceed-calls no_socket c cs w r h = omega arith
  proceed-calls lost c cs w r h = remove_child_thread-calls c w

  distribute_loop-calls :
      (b : MprotectBlock) (cs : List Child) (w : World)
      → w.calls ≤ (distribute_loop sys b cs w).1.calls
  unfolding distribute_loop
  distribute_loop-calls b [] w = omega arith
  distribute_loop-calls b (c ∷ cs) w =
      let (e, w') = distribute_child sys b c w in
      le_trans (distribute_child-calls b c w)
        (proceed-calls e c cs w' (distribute_loop sys b cs w') (distribute_loop-calls b cs w'))

  -- A page that can be changed and a reply that can be written keep the loop going.
  change_page-done :
      (self : ℕ) (b : MprotectBlock) (s : Family)
      → ((n : ℕ) (p : Ptr) → sys.mprotect n p ≡ success)
      → ((change_page sys self b s).0 ≡ true)
        × (s.world.calls ≤ (change_page sys self b s).1.world.calls)
  unfolding change_page mprotect_distribute
  change_page-done self b s changes =
      rw (changes s.world.calls b.header)
        (refl, le_trans (omega arith) (distribute_loop-calls _ s.children _))

  reply_to-done :
      (m : ℕ) (s : Family)
      → ((n : ℕ) → (k : ℕ) × (sys.write n ≡ gives k))
      → ((reply_to sys m s).0 ≡ true) × (s.world.calls ≤ (reply_to sys m s).1.world.calls)
  unfolding do_write
  reply_to-done m s writes = rw (writes s.world.calls).1 (refl, omega arith)

  serve_block-goes_on :
      (fd self : ℕ) (b : MprotectBlock) (s : Family)
      → ((n : ℕ) (p : Ptr) → sys.mprotect n p ≡ success)
      → ((n : ℕ) → (k : ℕ) × (sys.write n ≡ gives k))
      → ((serve_block sys fd self b s).0 ≡ true)
        × (s.world.calls ≤ (serve_block sys fd self b s).1.world.calls)
  unfolding serve_block
  serve_block-goes_on fd self b s changes writes =
      let (x, t) = change_page sys self b s in
      let (e, h) = change_page-done self b s changes in
      let (e', h') = reply_to-done 1 t writes in rw (e, e') (refl, omega (arith, h))

  -- Where every further read gives 0, which is the end of the connection, the inner loop never ends.
  serve_loop-spins :
      (n fd self : ℕ) (b : MprotectBlock) (s : Family)
      → ((k : ℕ) → s.world.calls ≤ k → sys.read k ≡ gives 0)
      → serve_loop sys n fd self b s ≡ spinning
  unfolding serve_loop serve_step after_read judge do_read
  serve_loop-spins zero fd self b s closed = refl
  serve_loop-spins (suc n) fd self b s closed = rw (closed s.world.calls (omega arith)) (
      serve_loop-spins n fd self (sys.received s.world.calls b) (on_world (called []) s)
        λ k h. closed k (omega arith))

-- What the server gets of the system and of its peer: `fd` is the connection that it accepts at its call
-- `n`; the first read on it gives a block from another process, and every further read gives 0, which
-- is the end of the connection; pages can be changed and replies can be written.
pub record Hangup (sys : Calls) (self n fd : ℕ) (b : MprotectBlock) : Type 0 where
  pub accepts : sys.accept n ≡ gives fd
  pub reads : (k : ℕ) × (sys.read (suc n) ≡ gives (suc k))
  pub foreign : self ≢ (sys.received (suc n) b).source
  pub changes : (k : ℕ) (p : Ptr) → sys.mprotect k p ≡ success
  pub writes : (k : ℕ) → (m : ℕ) × (sys.write k ≡ gives m)
  pub hangs_up : (k : ℕ) → suc n < k → sys.read k ≡ gives 0

module _ (sys : Calls) (self fd : ℕ) (b : MprotectBlock) (s : Family)
    (peer : Hangup sys self s.world.calls fd b) where
  abbrev block : MprotectBlock
  block = sys.received (suc s.world.calls) b

  abbrev accepted : Family
  accepted = on_world (called []) s

  abbrev outcome : Bool × Family
  outcome = serve_block sys fd self block (on_world (called []) accepted)

  -- The first block is served, and the loop goes on.
  served_first : serve_step sys fd self b accepted ≡ (outcome.0, block, outcome.1)
  unfolding serve_step after_read
  served_first =
      ap (λ r. after_read sys fd self r block accepted)
        (do_read_always_true (sys.read (suc s.world.calls))
          ∙ ap (λ a. reply true (read_bytes a) []) peer.reads.1)
      ∙ judge_foreign sys fd self peer.reads.0 block (on_world (called []) accepted) outcome
          peer.foreign

  hung_up : (n : ℕ) → serve_loop sys n fd self b (on_world (called []) s) ≡ spinning
  unfolding serve_loop
  hung_up zero = refl
  hung_up (suc n) =
      let (e, h) =
        serve_block-goes_on sys fd self block (on_world (called []) accepted) peer.changes
          peer.writes in
      rw (served_first, e)
        (serve_loop-spins sys n fd self block outcome.1
          λ k le. peer.hangs_up k (omega (arith, h, le)))

  -- A connection that is closed after one block stops the server for good: where the first read on
  -- the connection gives a block from another process, the page can be changed and the reply
  -- written, and every further read gives 0, the loops of manageCorruptionThread never end, however
  -- much fuel they get: a read of 0 is repeated, and no other connection is accepted.
  pub accept_loop-spins : (n listening : ℕ) → accept_loop sys n listening self b s ≡ spinning
  unfolding accept_loop do_accept
  accept_loop-spins zero listening = refl
  accept_loop-spins (suc n) listening = rw (peer.accepts, hung_up n) refl
