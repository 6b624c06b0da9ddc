-- ===== src/Children/Deliver.antt =====
-- To whom mprotectDistribute delivers a page, and what becomes of the table.
use vgc_malloc.Base.{
  ℕ, ◌≡◌, ◌≢◌, refl, sym, ap, ◌∙◌, ◌⊎◌, inl, inr, Bool, true, false, ◌||◌, List, [], ◌∷◌, ◌++◌,
  ◌==◌, arith, Bool-cases, if◌then◌else◌,
}
use mathlib.Core.Path.{subst}
use vgc_malloc.Errno.{Errno, Message}
use vgc_malloc.Memory.{Ptr}
use vgc_malloc.Network.{Answer, gives, fails, do_socket, do_connect, do_write}
use vgc_malloc.Network.Laws.{do_read_always_true}
use vgc_malloc.Pthread.Thread
use vgc_malloc.Children.{
  Child, MprotectBlock, Calls, World, Family, Event, sent, reports, note, called,
}
use vgc_malloc.Children.Thread.{cancel_thread, join_thread, remove_child_thread}
use vgc_malloc.Children.Distribute.{
  Exchange, answered, no_socket, lost, await, write_block, connect_child, exchange,
  distribute_child, proceed, distribute_loop, mprotect_distribute,
}

-- What has been sent to which socket, the latest first.
abbrev pub deliveries : List Event → List (ℕ × MprotectBlock)
deliveries [] = []
deliveries (sent name b ∷ es) = (name, b) ∷ deliveries es
deliveries (_ ∷ es) = deliveries es

-- A block for each process of the table but its source, in the order of the table.
abbrev pub addressed : MprotectBlock → List Child → List (ℕ × MprotectBlock)
addressed b [] = []
addressed b (c ∷ cs) =
    let rest = addressed b cs in
    if c.pid == 0 || c.pid == b.source then rest else (c.socket_name, b) ∷ rest

-- The second list with the first on it, one after the other.
abbrev pub onto {ℓ} : {A : Type ℓ} → List A → List A → List A
onto [] ys = ys
onto (x ∷ xs) ys = onto xs (x ∷ ys)

pub deliveries-reports :
    (ms : List Message) (es : List Event) → deliveries (reports ms es) ≡ deliveries es
deliveries-reports [] es = refl
deliveries-reports (m ∷ ms) es = deliveries-reports ms _

abbrev sent_in : World → List (ℕ × MprotectBlock)
sent_in w = deliveries w.events

Answer-cases : (a : Answer) → ((n : ℕ) × (a ≡ gives n)) ⊎ ((e : Errno) × (a ≡ fails e))
Answer-cases (gives n) = inl (n, refl)
Answer-cases (fails e) = inr (e, refl)

-- How one exchange ends: the block is sent and answered, or it is not sent.
abbrev Exchanged : Child → MprotectBlock → World → Exchange × World → Type 0
Exchanged c b w (e, w') =
    ((e ≡ answered) × (sent_in w' ≡ (c.socket_name, b) ∷ sent_in w))
    ⊎ ((e ≢ answered) × (sent_in w' ≡ sent_in w))

module _ (sys : Calls) where
  await_lem :
      (fd : ℕ) (w : World)
      → ((await sys fd w).0 ≡ answered) × (sent_in (await sys fd w).1 ≡ sent_in w)
  await_lem fd w = rw (do_read_always_true (sys.read w.calls)) (refl, refl)

  write_block-Exchanged :
      (fd : ℕ) (c : Child) (b : MprotectBlock) (w : World)
      → Exchanged c b w (write_block sys fd c b w)
  unfolding do_write
  write_block-Exchanged fd c b w = elim (Answer-cases (sys.write w.calls)) [
    | inl (n, e) ↦ rw e (inl (await_lem fd (note (sent c.socket_name b) (called [] w))))
    | inr (n, e) ↦ rw e (inr (λ h. ground (arith, h), refl))
  ]

  connect_child-Exchanged :
      (fd : ℕ) (c : Child) (b : MprotectBlock) (w : World)
      → Exchanged c b w (connect_child sys fd c b w)
  unfolding do_connect
  connect_child-Exchanged fd c b w = elim (Answer-cases (sys.connect w.calls)) [
    | inl (n, e) ↦ rw e (write_block-Exchanged fd c b (called [] w))
    | inr (n, e) ↦ rw e (inr (λ h. ground (arith, h), refl))
  ]

  exchange-Exchanged :
      (c : Child) (b : MprotectBlock) (w : World) → Exchanged c b w (exchange sys c b w)
  unfolding do_socket exchange
  exchange-Exchanged c b w = elim (Answer-cases (sys.socket w.calls)) [
    | inl (n, e) ↦ rw e (connect_child-Exchanged n c b (called [] w))
    | inr (n, e) ↦ rw e (inr (λ h. ground (arith, h), refl))
  ]

abbrev passes : MprotectBlock → Child → Bool
passes b c = c.pid == 0 || c.pid == b.source

-- The loop has stopped at the entry `c` of another process: those before it have been sent the block,
-- no other has, and at most `c` has been removed.
pub record Stopped (b : MprotectBlock) (cs : List Child) (w : World) (r : List Child × World)
    : Type 0 where
  pub before : List Child
  pub at : Child
  pub behind : List Child
  pub table : cs ≡ before ++ at ∷ behind
  pub other : (at.pid ≢ 0) × (at.pid ≢ b.source)
  pub left : (r.0 ≡ cs) ⊎ (r.0 ≡ before ++ record at { pid = 0; thread = 0 } ∷ behind)
  pub delivered : deliveries r.1.events ≡ onto (addressed b before) (deliveries w.events)

-- Every other process has been sent the block once, in the order of the table, and the table is as it
-- was; or the loop has stopped at one of them.
abbrev pub Distributed : MprotectBlock → List Child → World → List Child × World → Type 0
Distributed b cs w r =
    ((r.0 ≡ cs) × (deliveries r.1.events ≡ onto (addressed b cs) (deliveries w.events)))
    ⊎ Stopped b cs w r

passes-false :
    (b : MprotectBlock) (c : Child) → passes b c ≡ false → (c.pid ≢ 0) × (c.pid ≢ b.source)
passes-false b c e = (ground arith, ground arith)

onto-addressed :
    (b : MprotectBlock) (c : Child) (cs : List Child) (ys : List (ℕ × MprotectBlock))
    → onto (addressed b (c ∷ cs)) ys ≡ onto (addressed b cs) (onto (addressed b (c ∷ [])) ys)
onto-addressed b c cs ys = elim (Bool-cases (passes b c)) [ inl e ↦ rw e refl | inr e ↦ rw e refl ]

-- One entry more before those that are done.
Distributed-cons :
    (b : MprotectBlock) (c : Child) (cs : List Child) (w w' : World) (r : List Child × World)
    → sent_in w' ≡ onto (addressed b (c ∷ [])) (sent_in w)
    → Distributed b cs w' r
    → Distributed b (c ∷ cs) w (c ∷ r.0, r.1)
Distributed-cons b c cs w w' r e d = elim d [
  | inl (t, m) ↦ inl (
    ap (λ ds. c ∷ ds) t,
    m ∙ ap (onto (addressed b cs)) e ∙ sym (onto-addressed b c cs (sent_in w)),
  )
  | inr k ↦ inr (record {
    before = c ∷ k.before;
    at = k.at;
    behind = k.behind;
    table = ap (λ ds. c ∷ ds) k.table;
    other = k.other;
    left = elim k.left [ inl l ↦ inl (ap (λ ds. c ∷ ds) l) | inr l ↦ inr (ap (λ ds. c ∷ ds) l) ];
    delivered =
        k.delivered
        ∙ ap (onto (addressed b k.before)) e
        ∙ sym (onto-addressed b c k.before (sent_in w));
  })
]

module _ (sys : Calls) where
  cancelled_sent : (t : ℕ) (w : World) → sent_in (cancel_thread sys t w) ≡ sent_in w
  cancelled_sent t w = elim (Bool-cases (Thread.cancel (sys.cancel w.calls)).result) [
    | inl e ↦ rw e (deliveries-reports (Thread.cancel (sys.cancel w.calls)).messages w.events)
    | inr e ↦ rw e (deliveries-reports (Thread.cancel (sys.cancel w.calls)).messages w.events)
  ]

  joined_sent : (t : ℕ) (w : World) → sent_in (join_thread sys t w) ≡ sent_in w
  joined_sent t w = elim (Bool-cases (Thread.join (sys.join w.calls)).result) [
    | inl e ↦ rw e (deliveries-reports (Thread.join (sys.join w.calls)).messages w.events)
    | inr e ↦ rw e (deliveries-reports (Thread.join (sys.join w.calls)).messages w.events)
  ]

  remove_child_thread-sent :
      (c : Child) (w : World) → sent_in (remove_child_thread sys c w).1 ≡ sent_in w
  unfolding remove_child_thread
  remove_child_thread-sent c w =
      joined_sent c.thread (cancel_thread sys c.thread w) ∙ cancelled_sent c.thread w

  -- The body for an entry that is not passed over.
  proceed-Distributed :
      (e : Exchange) (b : MprotectBlock) (c : Child) (cs : List Child) (w w' : World)
      (r : List Child × World)
      → passes b c ≡ false
      → Exchanged c b w (e, w')
      → Distributed b cs w' r
      → Distributed b (c ∷ cs) w (proceed sys e c cs w' r)
  unfolding proceed remove_child_thread
  proceed-Distributed answered b c cs w w' r n x d = elim x [
    | inl (_, m) ↦ Distributed-cons b c cs w w' r (rw n m) d
    | inr (differs, m) ↦ absurd (differs refl)
  ]
  proceed-Distributed no_socket b c cs w w' r n x d = elim x [
    | inl (same, m) ↦ absurd (ground (arith, same))
    | inr (_, m) ↦ inr (record {
      before = [];
      at = c;
      behind = cs;
      table = refl;
      other = passes-false b c n;
      left = inl refl;
      delivered = m;
    })
  ]
  proceed-Distributed lost b c cs w w' r n x d = elim x [
    | inl (same, m) ↦ absurd (ground (arith, same))
    | inr (_, m) ↦ inr (record {
      before = [];
      at = c;
      behind = cs;
      table = refl;
      other = passes-false b c n;
      left = inr refl;
      delivered = remove_child_thread-sent c w' ∙ m;
    })
  ]

  distribute_child-passed :
      (b : MprotectBlock) (c : Child) (w : World)
      → passes b c ≡ true
      → distribute_child sys b c w ≡ (answered, w)
  unfolding distribute_child
  distribute_child-passed b c w e = rw e refl

  distribute_child-exchange :
      (b : MprotectBlock) (c : Child) (w : World)
      → passes b c ≡ false
      → distribute_child sys b c w ≡ exchange sys c b w
  unfolding distribute_child
  distribute_child-exchange b c w e = rw e refl

  distribute_loop-cons :
      (b : MprotectBlock) (c : Child) (cs : List Child) (w : World) (x : Exchange × World)
      → distribute_child sys b c w ≡ x
      → distribute_loop sys b (c ∷ cs) w ≡ proceed sys x.0 c cs x.1 (distribute_loop sys b cs x.1)
  unfolding distribute_loop
  distribute_loop-cons b c cs w x e =
      ap (λ y. proceed sys y.0 c cs y.1 (distribute_loop sys b cs y.1)) e

  distribute_loop-Distributed :
      (b : MprotectBlock) (cs : List Child) (w : World)
      → Distributed b cs w (distribute_loop sys b cs w)
  unfolding distribute_loop proceed
  distribute_loop-Distributed b [] w = inl (refl, refl)
  distribute_loop-Distributed b (c ∷ cs) w = elim (Bool-cases (passes b c)) [
    | inl e ↦
        let eq = distribute_loop-cons b c cs w (answered, w) (distribute_child-passed b c w e) in
        subst (Distributed b (c ∷ cs) w) (sym eq) (
          Distributed-cons b c cs w w (distribute_loop sys b cs w) (rw e refl)
            (distribute_loop-Distributed b cs w))
    | inr e ↦
        let (x, w') = exchange sys c b w in
        let eq = distribute_loop-cons b c cs w (x, w') (distribute_child-exchange b c w e) in
        subst (Distributed b (c ∷ cs) w) (sym eq) (
          proceed-Distributed x b c cs w w' (distribute_loop sys b cs w') e
            (exchange-Exchanged sys c b w) (distribute_loop-Distributed b cs w'))
  ]

  -- mprotectDistribute, whatever the system answers: either the table is unchanged and every process of
  -- it but the sender has been sent the page once, in the order of the table; or the loop has stopped at
  -- another process, to which nothing has been sent, those before it have been sent the page and those
  -- behind it have not, and at most that one has been removed.
  pub mprotect_distribute-Distributed :
      (self : ℕ) (header : Ptr) (protects : Bool) (s : Family)
      → let b : MprotectBlock = record { header = header; protects = protects; source = self } in
        let t = mprotect_distribute sys self header protects s in
        Distributed b s.children s.world (t.children, t.world)
  unfolding mprotect_distribute
  mprotect_distribute-Distributed self header protects s =
      distribute_loop-Distributed _ s.children s.world
