-- ===== src/Chain/Judged.antt =====
-- checkMmapBlock on any memory, well-formed or not: what each of its outcomes says of the headers.
use vgc_malloc.Base.{
  ◌∷◌, eqb_false, ℕ, zero, suc, ◌+◌, ◌≡◌, ◌≢◌, refl, ◌<◌, ◌≤◌, ◌⊎◌, inl, inr, Bool, true, false,
  ◌||◌, none, some, Option, arith, String, ◌==◌, ltb, Bool-cases, lt_of_ltb, if◌then◌else◌,
}
use vgc_malloc.Memory.{
  Ptr, null, State, Run, M, ok, fault, out_of_fuel, and_then, pure, MmapHeader, MallocHeader,
  load_block, sizeof_mmap_header,
}
use vgc_malloc.Memory.Ends.{Same, Same-refl, Same-log, load_mmap-ok}
use vgc_malloc.Errno.{message}
use vgc_malloc.Memory.Where.{Where, ended}
use vgc_malloc.Malloc.Quiet.{dump_printed-Where}
use vgc_malloc.Malloc.Sizes.{Sizes, no_sizes, add_block}
use vgc_malloc.Malloc.Check.{end_check, found_wrong, check_loop, check_mmap_block}

-- The header `b` stands at `q`.
abbrev pub Header : State → Ptr → MallocHeader → Type 0
Header s q b = (s.mapped q ≡ true) × (s.blocks q ≡ some b)

abbrev pub NoHeader : State → Ptr → Type 0
NoHeader s q = (s.mapped q ≡ false) ⊎ (s.blocks q ≡ none)

Option-cases : {A : Type 0} (o : Option A) → (o ≡ none) ⊎ ((a : A) × (o ≡ some a))
Option-cases none = inl refl
Option-cases (some a) = inr (a, refl)

misfit_cases : (a b : Bool) → (a || b) ≡ true → (a ≡ true) ⊎ (b ≡ true)
misfit_cases true b e = inl refl
misfit_cases false b e = inr e

module _ (s : State) (m : Ptr) (h : MmapHeader) where
  -- The size of a header, and where it may stand.
  abbrev pub Fits : Ptr → MallocHeader → Type 0
  Fits q b = (b.size ≤ h.max_size) × (m ≤ q) × (q ≤ m + s.shared.mmap_block_size)

  abbrev pub Misfits : Ptr → MallocHeader → Type 0
  Misfits q b = (h.max_size < b.size) ⊎ ((q < m) ⊎ (m + s.shared.mmap_block_size < q))

  -- From `p` on, `n` headers that fit are linked both ways with the one behind; the last is `q`.
  pub data Walk : Ptr → Ptr → ℕ → Type 0 where
    here : {p : Ptr} → Walk p p 0
    step :
        {p q : Ptr} {n : ℕ} {b c : MallocHeader}
        → Header s p b
        → Fits p b
        → b.next ≢ null
        → Header s b.next c
        → c.prev ≡ p
        → Walk b.next q n
        → Walk p q (suc n)

  -- The block is dumped, and the function returns `b`, where the dump does not fault or run on.
  pub data Dumped (b : Bool) : Run Bool → Type 0 where
    returned : {t : State} → Same s t → Dumped b (ok b t)
    dump_faulted : Dumped b fault
    dump_endless : Dumped b out_of_fuel

  -- What an outcome of the loop from `p` on says, for `k` units of fuel.
  pub data Judged (k : ℕ) (p : Ptr) : Run Bool → Type 0 where
    -- The headers are a list linked both ways, and each fits.
    sound :
        {q : Ptr} {n : ℕ} {b : MallocHeader} {r : Run Bool}
        → Walk p q n
        → n < k
        → Header s q b
        → Fits q b
        → b.next ≡ null
        → Dumped true r
        → Judged k p r
    -- A header does not fit.
    misfit :
        {q : Ptr} {n : ℕ} {b : MallocHeader} {r : Run Bool}
        → Walk p q n
        → n < k
        → Header s q b
        → Misfits q b
        → Dumped false r
        → Judged k p r
    -- A header is not linked back from the one behind.
    one_way :
        {q : Ptr} {n : ℕ} {b c : MallocHeader} {r : Run Bool}
        → Walk p q n
        → n < k
        → Header s q b
        → Fits q b
        → Header s b.next c
        → c.prev ≢ q
        → Dumped false r
        → Judged k p r
    -- A link leads to an address without a header.
    stray : {q : Ptr} {n : ℕ} → Walk p q n → n < k → NoHeader s q → Judged k p fault
    stray_next :
        {q : Ptr} {n : ℕ} {b : MallocHeader}
        → Walk p q n
        → n < k
        → Header s q b
        → b.next ≢ null
        → NoHeader s b.next
        → Judged k p fault
    -- As many headers are linked as there is fuel.
    endless : {q : Ptr} → Walk p q k → Judged k p out_of_fuel

  -- One header more in front.
  extend :
      {k : ℕ} {p : Ptr} {b c : MallocHeader} {r : Run Bool}
      → Header s p b
      → Fits p b
      → b.next ≢ null
      → Header s b.next c
      → c.prev ≡ p
      → Judged k b.next r
      → Judged (suc k) p r
  extend x f e y l (sound w lt a g z same) = sound (step x f e y l w) (omega arith) a g z same
  extend x f e y l (misfit w lt a g same) = misfit (step x f e y l w) (omega arith) a g same
  extend x f e y l (one_way w lt a g z o same) =
      one_way (step x f e y l w) (omega arith) a g z o same
  extend x f e y l (stray w lt n) = stray (step x f e y l w) (omega arith) n
  extend x f e y l (stray_next w lt a z n) = stray_next (step x f e y l w) (omega arith) a z n
  extend x f e y l (endless w) = endless (step x f e y l w)

  module _ {k : ℕ} {p : Ptr} where
    judge_if :
        (b : Bool) (f g : M Bool)
        → (b ≡ true → Judged k p (f s))
        → (b ≡ false → Judged k p (g s))
        → Judged k p ((if b then f else g) s)
    judge_if true f g jf jg = jf refl
    judge_if false f g jf jg = jg refl

    judge_load :
        (q : Ptr) (f : MallocHeader → M Bool)
        → ((b : MallocHeader) → Header s q b → Judged k p (f b s))
        → (NoHeader s q → Judged k p fault)
        → Judged k p (and_then (load_block q s) f)
    unfolding load_block
    judge_load q f found lost = elim (Bool-cases (s.mapped q)) [
      | inl e ↦ elim (Option-cases (s.blocks q)) [
        | inl n ↦ rw (e, n) (lost (inr n))
        | inr (b, y) ↦ rw (e, y) (found b (e, y))
      ]
      | inr e ↦ rw e (lost (inl e))
    ]

  after_dump :
      (b : Bool) (r : Run (Unit {0})) → Where (Same s) r → Dumped b (and_then r λ _. pure b)
  after_dump b (ok tt t) (ended e) = returned e
  after_dump b fault w = dump_faulted
  after_dump b out_of_fuel w = dump_endless

  wrong-Dumped : (str what : String) → Dumped false (found_wrong str m what s)
  wrong-Dumped str what = after_dump false _ (
      dump_printed-Where (Same s) m (record s { log = message str what "Error" ∷ s.log })
        (Same-log _ s))

  end-Dumped : (str : String) (b : Bool) → Dumped true (end_check str m b s)
  end-Dumped str true = returned (Same-refl s)
  end-Dumped str false = after_dump true _ (
      dump_printed-Where (Same s) m
        (record s { log = message str "Found inconsistent MMAP" "Error" ∷ s.log }) (Same-log _ s))

  judge_loop :
      (str : String) (k : ℕ) (p : Ptr) (z : Sizes)
      → p ≢ null
      → Judged k p (check_loop str k m h p z s)
  unfolding check_loop
  judge_loop str zero p z e = endless here
  judge_loop str (suc k) p z e = rw (eqb_false e) (
      judge_load p _
        (λ b x.
          judge_if (ltb h.max_size b.size) _ _
            (λ t.
              misfit here (omega arith) x (inl (lt_of_ltb h.max_size b.size t))
                (wrong-Dumped str _))
            λ small.
              judge_if (ltb p m || ltb (m + s.shared.mmap_block_size) p) _ _
                (λ t.
                  misfit here (omega arith) x (inr (ground (arith, misfit_cases (ltb p m) _ t)))
                    (wrong-Dumped str _))
                λ inside.
                  let f : Fits p b = (ground arith, ground arith, ground arith) in
                  judge_if (b.next == null) _ _
                    (λ t. sound here (omega arith) x f (ground arith) (end-Dumped str _))
                    λ more.
                      let n : b.next ≢ null = ground arith in
                      judge_load b.next _
                        (λ c y.
                          judge_if (p == c.prev) _ _
                            (λ t.
                              extend x f n y (ground arith)
                                (judge_loop str k b.next (add_block b z) n))
                            (λ t.
                              one_way here (omega arith) x f y (ground arith) (wrong-Dumped str _)))
                        λ lost. stray_next here (omega arith) x n lost)
        λ lost. stray here (omega arith) lost)

-- checkMmapBlock where the header of the MMAP block is there, on any other memory: where it
-- returns true, the malloc headers from the first on are a list of at most mmapBlockSize + 1
-- headers, linked both ways, that fit: no size is above the maximal size of the block, and none
-- stands outside of mmapBlockSize bytes. Where it returns false, one that is reached by such links
-- does not fit, or is not linked back from the one behind. Where it faults or the fuel runs out,
-- either one of these holds and the dump of the block has done so, or a link leads to an address
-- without a header, or more headers than mmapBlockSize are linked. No header is changed.
pub check_mmap_block-Judged :
    (str : String) (m : Ptr) (h : MmapHeader) (s : State)
    → s.mapped m ≡ true
    → s.mmaps m ≡ some h
    → Judged s m h
        (suc s.shared.mmap_block_size)
        (m + sizeof_mmap_header)
        (check_mmap_block str m s)
unfolding check_mmap_block
check_mmap_block-Judged str m h s e x = rw (load_mmap-ok m s e x) (
    judge_loop s m h str (suc s.shared.mmap_block_size) (m + sizeof_mmap_header) no_sizes
      (omega arith))
