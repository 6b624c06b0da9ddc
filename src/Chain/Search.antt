-- ===== src/Chain/Search.antt =====
-- The first-fit search of allocMallocBlock, on a chain.
use vgc_malloc.Base.{
  ℕ, zero, suc, ◌+◌, ◌≡◌, refl, ◌<◌, ◌≤◌, true, false, ◌⊎◌, inl, inr, List, [], ◌∷◌, ◌++◌, arith,
  if◌then◌else◌, length, Bool-cases, eqb_false,
}
use vgc_malloc.Memory.{Ptr, null, State, ok}
use vgc_malloc.Memory.Ends.{load_block-ok}
use vgc_malloc.Malloc.Block.{find_free}
use vgc_malloc.Chain.{Cell, end_of, span, link, Chain, fits}

-- The address of the first cell that fits, null if none does.
pub locate : ℕ → Ptr → List Cell → Ptr
locate n p [] = null
locate n p (c ∷ cs) = if fits n c then p else locate n (end_of p c) cs

-- No cell fits.
abbrev pub NoneFits : ℕ → List Cell → Type 0
NoneFits n [] = Unit {0}
NoneFits n (c ∷ cs) = (fits n c ≡ false) × NoneFits n cs

-- The cells around the first that fits.
pub record FirstFit (n : ℕ) (p q : Ptr) (cs : List Cell) : Type 0 where
  pub before : List Cell
  pub found : Cell
  pub behind : List Cell
  pub cells : cs ≡ before ++ found ∷ behind
  pub place : q ≡ p + span before
  pub fit : fits n found ≡ true
  pub skipped : NoneFits n before

module _ (n : ℕ) where
  pub locate-FirstFit :
      (p : Ptr) (cs : List Cell)
      → ((locate n p cs ≡ null) × NoneFits n cs) ⊎ FirstFit n p (locate n p cs) cs
  unfolding locate
  locate-FirstFit p [] = inl (refl, tt)
  locate-FirstFit p (c ∷ cs) = elim (Bool-cases (fits n c)) [
    | inl e ↦ rw e (
        inr (record {
          before = [];
          found = c;
          behind = cs;
          cells = refl;
          place = omega arith;
          fit = e;
          skipped = tt;
        }))
    | inr e ↦ rw e (elim (locate-FirstFit (end_of p c) cs) [
      | inl (h, k) ↦ inl (h, (refl, k))
      | inr z ↦ inr (record {
        before = c ∷ z.before;
        found = z.found;
        behind = z.behind;
        cells = rw z.cells refl;
        place = omega (arith, z.place);
        fit = z.fit;
        skipped = (e, z.skipped);
      })
    ])
  ]

  -- The loop over the headers finds it, and changes nothing.
  pub find_free-locate :
      (k : ℕ) (m prev p : Ptr) (cs : List Cell) (s : State)
      → Chain s.blocks m prev p cs null
      → 0 < p
      → ((q : Ptr) → p ≤ q → q < p + span cs → s.mapped q ≡ true)
      → length cs < k
      → find_free k (link p cs null) n s ≡ ok (locate n p cs) s
  unfolding find_free locate
  find_free-locate zero m prev p cs s h pos mapped fuel = absurd (omega arith)
  find_free-locate (suc k) m prev p [] s h pos mapped fuel = refl
  find_free-locate (suc k) m prev p (c ∷ cs) s (h, hs) pos mapped fuel =
      rw
        (
          eqb_false {a = p} {b = 0} (omega arith),
          load_block-ok p s (mapped p (omega arith) (omega arith)) h,
        )
        (elim (Bool-cases (fits n c)) [
          | inl e ↦ rw e refl
          | inr e ↦ rw e (
              find_free-locate k m p (end_of p c) cs s hs (omega arith)
                (λ q a b. mapped q (omega arith) (omega arith)) (omega arith))
        ])
