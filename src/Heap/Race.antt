-- ===== src/Heap/Race.antt =====
-- Two threads in vgc_malloc of src/vgc_malloc.c on an empty heap.
use vgc_malloc.Base.{
  ℕ, suc, ◌+◌, ◌≡◌, ◌≢◌, refl, ◌<◌, ◌≤◌, ◌⊎◌, inl, inr, ◌∙◌, ap, some, [], arith, word_mod,
  eqb_true, eqb_false, if◌then◌else◌,
}
use mathlib.Core.Path.{subst}
use vgc_malloc.Memory.{
  Ptr, null, map_failed, State, ok, sizeof_malloc_header, sizeof_mmap_header, Run, and_then, pure,
}
use vgc_malloc.Memory.Ends.{Ends, ends}
use vgc_malloc.System.{System}
use vgc_malloc.System.Laws.{Answers}
use vgc_malloc.Malloc.Region.{mmap_block_allocate}
use vgc_malloc.Malloc.Entry.{
  entering, making, storing, ready, failed, act, World, Reach, start, later, first_acts,
  second_acts,
}
use vgc_malloc.Chain.Mmap.{IsMmap}
use vgc_malloc.Chain.Fresh.{fresh, fresh_cells, one_block_more}
use vgc_malloc.Heap.{IsHeap}
use vgc_malloc.Heap.Frame.{IsMmap-Spared}
use vgc_malloc.Heap.Made.{Alone, Lost, make_first, stored-Spared, unlinked}

outcome :
    {A : Type 0} {P : A → State → Type 0} {r : Run A}
    → Ends P r
    → (a : A) × (t : State) × (r ≡ ok a t) × P a t
outcome (ends x) = (_, _, refl, x)

-- Both threads test mmapBlockFirst, then both make a block, and both store it.
module _ (a b : System) (s t u : State) (x y : Ptr) where
  both_make :
      s.shared.mmap_block_first ≡ null
      → mmap_block_allocate a s.shared.mmap_block_size null s ≡ ok x t
      → mmap_block_allocate b t.shared.mmap_block_size null t ≡ ok y u
      → Reach a b
          (record { one = entering; two = entering; mem = s })
          (record { one = storing x; two = storing y; mem = u })
  unfolding act
  both_make empty e e' =
      let seen = ap (λ c. ok (if c then making else ready) s) (eqb_true empty) in
      later
        (later (later (later start (first_acts seen)) (second_acts seen))
          (first_acts (ap (λ r. and_then r λ p. pure (storing p)) e)))
        (second_acts (ap (λ r. and_then r λ p. pure (storing p)) e'))

  both_store :
      {w : World}
      → y ≢ map_failed
      → Reach a b w (record { one = storing x; two = storing y; mem = u })
      → Reach a b w (record {
        one = ready;
        two = ready;
        mem = record u { shared = record u.shared { mmap_block_first = y } };
      })
  unfolding act
  both_store no_ r =
      let seen =
        ap
          (λ c.
            ok (if c then failed else ready)
              (record u { shared = record u.shared { mmap_block_first = y } }))
          (eqb_false no_) in
      later (later (later (later r (first_acts refl)) (second_acts refl)) (first_acts seen))
        (second_acts seen)

both_made :
    (s t u : State) (p q : Ptr)
    → (let size = s.shared.mmap_block_size in
        s.shared.mmap_block_count ≡ 0
        → IsMmap t p (fresh size) (fresh_cells size)
        → t.shared ≡ one_block_more s.shared
        → (p + size ≤ q) ⊎ (q + size ≤ p)
        → Alone t q size q u
        → Lost s p q (record u { shared = record u.shared { mmap_block_first = q } }))
both_made s t u p q none_ made shared apart ((_, made', shared'), spared) =
    let size = s.shared.mmap_block_size in
    let last : State = record u { shared = record u.shared { mmap_block_first = q } } in
    let count : last.shared.mmap_block_count ≡ suc (suc s.shared.mmap_block_count) =
      ap (λ z. z.mmap_block_count) (shared' ∙ ap one_block_more shared) in
    let kept = IsMmap-Spared (stored-Spared u q q size) made' in
    record {
      first = refl;
      count = count;
      lost =
          IsMmap-Spared (stored-Spared u q p size)
            (IsMmap-Spared (spared p size (elim apart [ inl z ↦ inr z | inr z ↦ inl z ])) made);
      kept = kept;
      no_heap =
          λ rs. unlinked last q size rs refl (omega (arith, count, none_)) kept.here kept.base;
    }

module _ (a b : System) (good_a : Answers a) (good_b : Answers b) (p q : Ptr) (s : State) where
  -- Two threads that enter vgc_malloc on an empty heap can both make the first MMAP block: where every
  -- call on a mutex succeeds, mmap gives an address to each thread, and the two blocks lie apart,
  -- end below 2 ^ 64, and have room for the headers, some order of their steps leads to both standing
  -- behind the first block. Then both blocks are made, well-formed and counted, but only one is the
  -- first, and it is not linked to the other: no list of MMAP blocks is well-formed.
  pub malloc-race :
      (let size = s.shared.mmap_block_size in
        IsHeap s []
        → ((c : ℕ) → a.mmap c size ≡ some p)
        → ((c : ℕ) → b.mmap c size ≡ some q)
        → 0 < p
        → 0 < q
        → (p + size ≤ q) ⊎ (q + size ≤ p)
        → p + size < word_mod
        → q + size < word_mod
        → sizeof_mmap_header + sizeof_malloc_header ≤ size
        → (t : State) × Reach a b
            (record { one = entering; two = entering; mem = s })
            (record { one = ready; two = ready; mem = t })
          × Lost s p q t)
  malloc-race v got_p got_q pos_p pos_q apart bound_p bound_q room =
      let size = s.shared.mmap_block_size in
      let (x, t, e, ((x_at, made, shared), _)) =
        outcome (make_first a good_a p s (got_p s.calls) pos_p room bound_p) in
      let size' : t.shared.mmap_block_size ≡ size = ap (λ z. z.mmap_block_size) shared in
      let (y, u, e', alone) = outcome (
        subst (λ n. Ends (Alone t q n) (mmap_block_allocate b n null t)) size'
          (make_first b good_b q t (ap (b.mmap t.calls) size' ∙ got_q t.calls) pos_q
            (omega (arith, size')) (omega (arith, size')))) in
      (
        record u { shared = record u.shared { mmap_block_first = q } },
        subst
            (λ z.
              Reach a b (record { one = entering; two = entering; mem = s })
                (record {
                  one = ready;
                  two = ready;
                  mem = record u { shared = record u.shared { mmap_block_first = z } };
                }))
            alone.0.0
            (both_store a b s t u x y (omega (arith, alone.0.0)) (
              both_make a b s t u x y v.first e
                (ap (λ n. mmap_block_allocate b n null t) size' ∙ e'))),
        both_made s t u p q v.count made shared apart ((refl, alone.0.1, alone.0.2), alone.1),
      )
