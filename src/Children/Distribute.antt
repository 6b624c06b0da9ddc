-- ===== src/Children/Distribute.antt =====
-- src/vgc_mprotect_mp.c: mprotectDistribute sends a page to every other process and waits for each
-- answer.
use vgc_malloc.Base.{ℕ, Bool, ◌||◌, List, [], ◌∷◌, ◌==◌, if◌then◌else◌}
use vgc_malloc.Memory.{Ptr}
use vgc_malloc.Network.{do_socket, do_connect, do_write, do_read}
use vgc_malloc.Children.{Child, MprotectBlock, Calls, World, Family, sent, closed, called, note}
use vgc_malloc.Children.Thread.{remove_child_thread}

-- How the body of the loop ends: it has an answer; there is no socket and the loop is left; or the
-- child is lost, which is removed, and the loop is left.
pub data Exchange : Type 0 where
  answered no_socket lost : Exchange

module _ (sys : Calls) where
  -- From do_read on.
  abbrev pub await : ℕ → World → Exchange × World
  await fd w =
      let r = do_read (sys.read w.calls) in
      (if r.result then answered else lost, note (closed fd) (called r.messages w))

  -- From do_write on.
  abbrev pub write_block : ℕ → Child → MprotectBlock → World → Exchange × World
  write_block fd c block w =
      let r = do_write (sys.write w.calls) in
      let w' = called r.messages w in
      if r.result
      then await fd (note (sent c.socket_name block) w')
      else (lost, note (closed fd) w')

  -- From do_connect on.
  abbrev pub connect_child : ℕ → Child → MprotectBlock → World → Exchange × World
  connect_child fd c block w =
      let r = do_connect (sys.connect w.calls) in
      let w' = called r.messages w in
      if r.result then write_block fd c block w' else (lost, note (closed fd) w')

  unfoldable pub exchange : Child → MprotectBlock → World → Exchange × World
  exchange c block w =
      let r = do_socket (sys.socket w.calls) in
      let w' = called r.messages w in
      if r.result then connect_child r.stored c block w' else (no_socket, w')

  -- The body of the loop for one entry: a free entry and the sender's own are passed over.
  unfoldable pub distribute_child : MprotectBlock → Child → World → Exchange × World
  unfolding exchange
  distribute_child block c w =
      if c.pid == 0 || c.pid == block.source then (answered, w) else exchange c block w

  -- How the loop goes on after the body for the entry `c`, where `rest` is what it does with the entries
  -- behind.
  unfoldable pub proceed :
      Exchange → Child → List Child → World → List Child × World → List Child × World
  unfolding remove_child_thread
  proceed answered c cs w (ds, v) = (c ∷ ds, v)
  proceed no_socket c cs w rest = (c ∷ cs, w)
  proceed lost c cs w rest = let (c', u) = remove_child_thread sys c w in (c' ∷ cs, u)

  -- The loop, on the entries from one on.
  unfoldable pub distribute_loop : MprotectBlock → List Child → World → List Child × World
  unfolding distribute_child proceed
  distribute_loop block [] w = ([], w)
  distribute_loop block (c ∷ cs) w =
      let (e, w') = distribute_child block c w in proceed e c cs w' (distribute_loop block cs w')

  -- mprotectDistribute, called by the process `self`
  unfoldable pub mprotect_distribute : ℕ → Ptr → Bool → Family → Family
  unfolding distribute_loop
  mprotect_distribute self header protects s =
      let block : MprotectBlock = record { header = header; protects = protects; source = self } in
      let (cs, w) = distribute_loop block s.children s.world in
      record s { children = cs; world = w }
