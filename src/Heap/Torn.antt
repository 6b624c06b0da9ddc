-- ===== src/Heap/Torn.antt =====
-- vgc_free on the list of MMAP blocks, where the lock of the block before is refused.
use vgc_malloc.Base.{
  ℕ, ◌≡◌, ◌≢◌, refl, ◌<◌, ◌⊎◌, inl, inr, ◌∙◌, sym, ap, ap_at, true, false, some, List, [], ◌∷◌,
  ◌++◌, arith, eqb_false,
}
use mathlib.Core.Path.{subst}
use vgc_malloc.Errno.{Errno, success}
use vgc_malloc.Memory.{Ptr, null, MmapHeader, State, mmap_mutex}
use vgc_malloc.Memory.Ends
use vgc_malloc.Memory.Ends.{Ends, ends, Same-log, Same, After-Same, load_mmap-ok}
use vgc_malloc.System.{System, is_acquired}
use vgc_malloc.System.Laws.{mutex_lock-refused}
use vgc_malloc.Malloc.Release.{unlink_prev, release_mmap}
use vgc_malloc.Chain.Mmap.{IsMmap}
use vgc_malloc.Chain.Released.{unlock_both-Same}
use vgc_malloc.Heap.{Region, first_of, Away, AllAway, Regions, IsHeap}
use vgc_malloc.Heap.Release.{Relinked, unlink_next-Relinked}

-- The blocks `x`, `r` and `y` stand one behind the other in the list.
record Between (s : State) (x r y : Region) : Type 0 where
  pub first : IsMmap s x.at x.head x.cells
  pub middle : IsMmap s r.at r.head r.cells
  pub last : IsMmap s y.at y.head y.cells
  pub enter : x.head.next ≡ r.at
  pub back : r.head.prev ≡ x.at
  pub leave : r.head.next ≡ y.at
  pub apart : Away x.at x.head.size r
  pub far : Away x.at x.head.size y
  pub near : Away r.at r.head.size y

module _ (s : State) (x r y : Region) (ys : List Region) where
  between :
      (prev : Ptr) (xs : List Region) → Regions s prev (xs ++ x ∷ r ∷ y ∷ ys) → Between s x r y
  between prev [] (vx, _, nx, (oxr, (oxy, _)), (vr, pr, nr, (ory, _), (vy, _, _, _, _))) = record {
    first = vx;
    middle = vr;
    last = vy;
    enter = nx;
    back = pr;
    leave = nr;
    apart = oxr;
    far = oxy;
    near = ory;
  }
  between prev (z ∷ xs) (_, _, _, _, vs) = between z.at xs vs

  Away-last : (p n : ℕ) (xs : List Region) → AllAway p n (xs ++ x ∷ r ∷ y ∷ ys) → Away p n y
  Away-last p n [] (_, (_, (o, _))) = o
  Away-last p n (z ∷ xs) (_, os) = Away-last p n xs os

-- The header of the first block of a list, where it is known what stands in memory.
module _ (t : State) where
  enter_list :
      (prev a : Ptr) (k : MmapHeader) (qs : List Region)
      → Regions t prev qs
      → first_of qs ≡ a
      → 0 < a
      → t.mmaps a ≡ some k
      → (rest : List Region) × Regions t a rest × (first_of rest ≡ k.next) × (k.prev ≡ prev)
  enter_list prev a k [] v e pos h = absurd (omega (arith, e))
  enter_list prev a k (q ∷ qs) (w, p, n, o, vs) e pos h =
      let head : q.head ≡ k = from_some (sym w.here ∙ ap t.mmaps e ∙ h) in
      (
        qs,
        subst (λ z. Regions t z qs) e vs,
        sym n ∙ ap (λ z. z.next) head,
        ap (λ z. z.prev) (sym head) ∙ p,
      )
    where
      from_some : {a b : MmapHeader} → some a ≡ some b → a ≡ b
      from_some e = cc

Relinked-Same :
    {s t u : State} {q : Ptr} {f : MmapHeader → MmapHeader}
    → Relinked s t q f
    → Same t u
    → Relinked s u q f
Relinked-Same {q} k same = record {
  shared = same.shared ∙ k.shared;
  mapped = same.mapped ∙ k.mapped;
  blocks = same.blocks ∙ k.blocks;
  others = λ x o. ap_at same.mmaps x ∙ k.others x o;
  there = λ j n e. ap_at same.mmaps q ∙ k.there j n e;
}

unlink_prev-refused :
    (sys : System) (m : Ptr) (h : MmapHeader) (c : Errno) (s : State)
    → s.mapped m ≡ true
    → s.mmaps m ≡ some h
    → h.prev ≢ null
    → is_acquired c ≡ false
    → ((n : ℕ) → sys.lock n (mmap_mutex h.prev) ≡ c)
    → Ends (λ a t. (a ≡ false) × Same s t) (unlink_prev sys m s)
unfolding unlink_prev
unlink_prev-refused sys m h c s here head some_ no_ refused =
    rw (load_mmap-ok m s here head, eqb_false {a = h.prev} {b = 0} some_)
      (Ends.seq _ (mutex_lock-refused sys (mmap_mutex h.prev) s c no_ (refused s.calls))
        λ a t (e, same). rw e (ends (refl, same)))

module _ (s t : State) (x r y : Region) (ys : List Region)
    (torn : Relinked s t y.at (λ k. record k { prev = x.at })) where
  kept :
      (q : Region) (q' : Ptr)
      → q.at ≢ y.at
      → IsMmap s q.at q.head q.cells
      → q' ≡ q.at
      → t.mmaps q' ≡ some q.head
  kept q q' d w e = ap t.mmaps e ∙ torn.others q.at (inl d) ∙ w.here

  -- No list of MMAP blocks starts where the old one did.
  no_list :
      (xs : List Region) (prev prev' : Ptr) (qs : List Region)
      → Regions s prev (xs ++ x ∷ r ∷ y ∷ ys)
      → Regions t prev' qs
      → ¬ (first_of qs ≡ first_of (xs ++ x ∷ r ∷ y ∷ ys))
  no_list [] prev prev' qs v w e =
      let b = between s x r y ys prev [] v in
      let (qs1, w1, e1, _) = enter_list t prev' x.at x.head qs w e b.first.base (
        kept x x.at
          (elim b.far [
            | inl p ↦ omega (arith, b.first.filled)
            | inr p ↦ omega (arith, b.last.filled)
          ])
          b.first refl) in
      let (qs2, w2, e2, _) = enter_list t x.at r.at r.head qs1 w1 (e1 ∙ b.enter) b.middle.base (
        kept r r.at
          (elim b.near [
            | inl p ↦ omega (arith, b.middle.filled)
            | inr p ↦ omega (arith, b.last.filled)
          ])
          b.middle refl) in
      let (_, _, _, wrong) =
        enter_list t r.at y.at (record y.head { prev = x.at }) qs2 w2 (e2 ∙ b.leave) b.last.base
          (torn.there y.head (omega (arith, b.last.base)) b.last.here) in
      elim b.apart [
        | inl p ↦ absurd (omega (arith, b.first.filled, wrong))
        | inr p ↦ absurd (omega (arith, b.middle.filled, wrong))
      ]
  no_list (z ∷ xs) prev prev' qs (v, p, n, o, vs) w e =
      let far = Away-last s x r y ys z.at z.head.size xs o in
      let last = (between s x r y ys z.at xs vs).last in
      let (qs1, w1, e1, _) = enter_list t prev' z.at z.head qs w e v.base (
        kept z z.at
          (elim far [ inl p ↦ omega (arith, v.filled) | inr p ↦ omega (arith, last.filled) ]) v
          refl) in
      no_list xs z.at z.at qs1 vs w1 (e1 ∙ n)

module _ (sys : System) (xs : List Region) (x r y : Region) (ys : List Region) (c : Errno)
    (s : State) where
  -- The end of vgc_free, from where it has found the MMAP block free as a whole: where the list of
  -- blocks is well-formed there, the block is neither the first nor the last, the lock of the block
  -- behind is granted and that of the block before is refused, whatever else the system answers, it
  -- ends without a fault, and gives up. From there on the header of the block behind is the only one
  -- that changes: it is linked back to the block before. The block before is still linked to the one
  -- that was to leave, so what starts at mmapBlockFirst is no well-formed list any more.
  pub release_mmap-torn :
      IsHeap s (xs ++ x ∷ r ∷ y ∷ ys)
      → ((n : ℕ) → sys.lock n (mmap_mutex y.at) ≡ success)
      → is_acquired c ≡ false
      → ((n : ℕ) → sys.lock n (mmap_mutex x.at) ≡ c)
      → Ends
          (λ _ t.
            Relinked s t y.at (λ k. record k { prev = x.at })
            × ((qs : List Region) → ¬ IsHeap t qs))
          (release_mmap sys r.at s)
  unfolding release_mmap
  release_mmap-torn v granted no_ refused =
      let b = between s x r y ys null xs v.regions in
      let here = b.middle.mapped r.at (omega arith) (omega (arith, b.middle.filled)) in
      let apart : (r.at ≢ r.head.next) ⊎ (r.head.next ≡ null) = inl (elim b.near [
        | inl p ↦ omega (arith, b.leave, b.middle.filled)
        | inr p ↦ omega (arith, b.leave, b.last.filled)
      ]) in
      Ends.seq _
        (unlink_next-Relinked sys r.at r.head s
          (λ n. ap (λ q. sys.lock n (mmap_mutex q)) b.leave ∙ granted n) here b.middle.here
          (inr (
            y.head,
            omega (arith, b.leave, b.last.base),
            ap s.mapped b.leave ∙ b.last.mapped y.at (omega arith) (omega (arith, b.last.filled)),
            ap s.mmaps b.leave ∙ b.last.here,
            elim b.near [
              | inl p ↦ inr (omega (arith, b.leave))
              | inr p ↦ inl (omega (arith, b.leave, b.last.filled))
            ],
          )))
        λ _ t (e, k). rw e (
          Ends.seq _
            (unlink_prev-refused sys r.at r.head c t (ap_at k.mapped r.at ∙ here)
              (k.others r.at apart ∙ b.middle.here) (omega (arith, b.back, b.first.base)) no_
              (λ n. ap (λ q. sys.lock n (mmap_mutex q)) b.back ∙ refused n))
            λ _ u (e', same). rw e' (
              Ends.seq _ (unlock_both-Same sys r.at u) λ _ w same'.
                let l =
                  Relinked-Same
                    (subst (λ p. Relinked s t y.at (λ q. record q { prev = p })) b.back
                      (subst (λ p. Relinked s t p (λ q. record q { prev = r.head.prev })) b.leave
                        k))
                    (After-Same same (After-Same same' (Same-log _ w))) in
                ends (
                  l,
                  λ qs i.
                      no_list s _ x r y ys l xs null null qs v.regions i.regions
                        (sym i.first ∙ ap (λ z. z.mmap_block_first) l.shared ∙ v.first),
                )))
