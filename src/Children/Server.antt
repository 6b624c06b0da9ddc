-- ===== src/Children/Server.antt =====
-- src/vgc_mprotect_mp.c: manageCorruptionThread, which serves the socket of one process, and the build
-- of VGC_mprotect and VGC_munprotect (src/vgc_mprotect.c) that passes a page on to the other processes.
-- Its two loops have no bound; here they take fuel, the number of calls of accept and of read.
use vgc_malloc.Base.{ℕ, zero, suc, Bool, true, false, not, [], ◌∷◌, ◌==◌, if◌then◌else◌}
use vgc_malloc.Errno.{Errno, success}
use vgc_malloc.Mprotect.{mprotect_message}
use vgc_malloc.Network.{
  Answer, gives, fails, Reply, do_bind, do_listen, do_accept, do_write, do_read,
}
use vgc_malloc.Children.{
  Child, MprotectBlock, Calls, World, Family, changed, closed, replied, called, note, report,
}
use vgc_malloc.Children.Distribute.{mprotect_distribute}

-- How a run of the server's loops ends.
pub data ServerRun : Type 0 where
  served : MprotectBlock → Family → ServerRun  -- the loop is left, with this buffer
  spinning : ServerRun  -- the fuel is used up

abbrev pub then_serve : ServerRun → (MprotectBlock → Family → ServerRun) → ServerRun
then_serve (served block s) k = k block s
then_serve spinning k = spinning

abbrev pub is_success : Errno → Bool
is_success success = true
is_success _ = false

abbrev pub on_world : (World → World) → Family → Family
on_world f s = record s { world = f s.world }

module _ (sys : Calls) where
  -- VGC_mprotect and VGC_munprotect, in the process `self`.
  unfoldable pub change_page : ℕ → MprotectBlock → Family → Bool × Family
  unfolding mprotect_distribute
  change_page self block s =
      let e = sys.mprotect s.world.calls block.header in
      let t = on_world (λ w. note (changed block) (called [] w)) s in
      if is_success e
      then (true, mprotect_distribute sys self block.header block.protects t)
      else (false, on_world (called (mprotect_message e block.protects ∷ [])) s)

  -- `do_write(fd, &result, sizeof(int))`
  abbrev pub reply_to : ℕ → Family → Bool × Family
  reply_to n s =
      let r = do_write (sys.write s.world.calls) in
      let t = on_world (called r.messages) s in
      (r.result, if r.result then on_world (note (replied n)) t else t)

  -- What an iteration does with a block from another process; `true` is to go on with the loop.
  unfoldable pub serve_block : ℕ → ℕ → MprotectBlock → Family → Bool × Family
  unfolding change_page
  serve_block fd self block s =
      let (b, t) = change_page self block s in
      let (b', u) = reply_to 1 t in
      let failed = on_world (report "Error" "" "") t in
      if b
      then (b', if b' then u else on_world (note (closed fd)) u)
      else (false, if block.protects then failed else (reply_to 0 failed).1)

  -- What is done after do_read with the reply `r`, which has left `block` in the buffer; `x` is what
  -- serving the block gives.
  unfoldable pub judge :
      ℕ → ℕ → Reply → MprotectBlock → Family → Bool × Family → Bool × MprotectBlock × Family
  judge fd self r block t (b, u) =
      if not r.result
      then (false, block, on_world (note (closed fd)) t)
      else (if r.stored == 0
          then (true, block, t)
          else (if self == block.source then (false, block, t) else (b, block, u)))

  -- The rest of an iteration after do_read.
  unfoldable pub after_read : ℕ → ℕ → Reply → MprotectBlock → Family → Bool × MprotectBlock × Family
  unfolding serve_block judge
  after_read fd self r block s =
      let t = on_world (called r.messages) s in
      judge fd self r block t (serve_block fd self block t)

  -- An iteration of the inner loop, on the connection `fd` with the buffer `block`.
  unfoldable pub serve_step : ℕ → ℕ → MprotectBlock → Family → Bool × MprotectBlock × Family
  unfolding after_read
  serve_step fd self block s =
      after_read fd self (do_read (sys.read s.world.calls)) (sys.received s.world.calls block) s

  -- The inner loop.
  unfoldable pub serve_loop : ℕ → ℕ → ℕ → MprotectBlock → Family → ServerRun
  unfolding serve_step
  serve_loop zero fd self block s = spinning
  serve_loop (suc n) fd self block s =
      let (b, block', t) = serve_step fd self block s in
      let rest = serve_loop n fd self block' t in if b then rest else served block' t

  -- The outer loop.
  unfoldable pub accept_loop : ℕ → ℕ → ℕ → MprotectBlock → Family → ServerRun
  unfolding serve_loop
  accept_loop zero listening self block s = spinning
  accept_loop (suc n) listening self block s =
      let r = do_accept (sys.accept s.world.calls) in
      let t = on_world (called r.messages) s in
      let next =
        then_serve (serve_loop n r.stored self block t)
          λ block' u. accept_loop n listening self block' (on_world (note (closed r.stored)) u) in
      if r.result then next else served block t

  -- From do_bind on.
  unfoldable pub listen_on : ℕ → ℕ → ℕ → MprotectBlock → Family → ServerRun
  unfolding accept_loop
  listen_on fuel fd self block s =
      let b = do_bind (sys.bind s.world.calls) in
      let t = on_world (called b.messages) s in
      let l = do_listen (sys.listen t.world.calls) in
      let u = on_world (called l.messages) t in
      if not b.result
      then served block t
      else (if l.result then accept_loop fuel fd self block u else served block u)

  -- manageCorruptionThread for the entry `c`: the entry with its socket, and the run of its loops, from
  -- what the buffer holds at first.
  unfoldable pub manage_corruption_thread : ℕ → MprotectBlock → Child → Family → Child × ServerRun
  unfolding listen_on
  manage_corruption_thread fuel block c s =
      let named = record c { socket_name = c.pid } in
      let t = on_world (called []) s in
      elim (sys.socket s.world.calls) [
        | fails e ↦ (
          record named { socket_fd = package.vgc_malloc.Network.minus_one },
          served block (on_world (report "Error" "socket" "") t),
        )
        | gives fd ↦ (record named { socket_fd = fd }, listen_on fuel fd c.pid block t)
      ]
