-- ===== src/Heap/Link.antt =====
-- A new MMAP block behind the last of the list.
use vgc_malloc.Base.{
  ℕ, suc, ◌+◌, ◌≡◌, ◌≢◌, refl, ◌<◌, ◌≤◌, ◌⊎◌, inl, inr, ◌∙◌, sym, ap, some, true, List, [], ◌∷◌,
  ◌++◌, arith, length,
}
use vgc_malloc.Memory.{Ptr, null, MmapHeader, State}
use vgc_malloc.Chain.{Cell}
use vgc_malloc.Chain.Mmap.{IsMmap}
use vgc_malloc.Heap.{Region, region, first_of, last_of, Away, AllAway, Regions}
use vgc_malloc.Heap.Frame.{IsMmap-head, IsMmap-Spared}

-- The last block is linked to `p`.
abbrev pub linked : Ptr → Region → List Region → List Region
linked p r [] = region r.at (record r.head { next = p }) r.cells ∷ []
linked p r (q ∷ rs) = r ∷ linked p q rs

abbrev pub last_head : Region → List Region → MmapHeader
last_head r [] = r.head
last_head r (q ∷ rs) = last_head q rs

-- Between `s` and `t` the `n` bytes from `p` on have become a block, and the header of the last block
-- is linked to it.
pub record Grew (s t : State) (p n last : ℕ) (h : MmapHeader) : Type 0 where
  pub block_size : t.shared.mmap_block_size ≡ s.shared.mmap_block_size
  pub mapped : (x : Ptr) → (x < p) ⊎ (p + n ≤ x) → t.mapped x ≡ s.mapped x
  pub blocks : (x : Ptr) → (x < p) ⊎ (p + n ≤ x) → t.blocks x ≡ s.blocks x
  pub mmaps : (x : Ptr) → (x < p) ⊎ (p + n ≤ x) → x ≢ last → t.mmaps x ≡ s.mmaps x
  pub tail : t.mmaps last ≡ some (record h { next = p })

pub AllAway-last :
    (s : State) (p n prev : ℕ) (r : Region) (rs : List Region)
    → Regions s prev (r ∷ rs)
    → AllAway p n (r ∷ rs)
    → (last_of r.at rs < p) ⊎ (p + n ≤ last_of r.at rs)
AllAway-last s p n prev r [] (v, _, _, _, _) (o, _) = elim o [
  | inl a ↦ inr a
  | inr b ↦ inl (omega (arith, v.filled))
]
AllAway-last s p n prev r (q ∷ rs) (v, _, _, _, vs) (_, os) = AllAway-last s p n r.at q rs vs os

pub Regions-last :
    (s : State) (prev : Ptr) (r : Region) (rs : List Region)
    → Regions s prev (r ∷ rs)
    → (s.mmaps (last_of r.at rs) ≡ some (last_head r rs))
      × (s.mapped (last_of r.at rs) ≡ true)
      × (0 < last_of r.at rs)
Regions-last s prev r [] (v, _, _, _, _) =
    (v.here, v.mapped r.at (omega arith) (omega (arith, v.filled)), v.base)
Regions-last s prev r (q ∷ rs) (v, _, _, _, vs) = Regions-last s r.at q rs vs

AllAway-linked :
    (p n : ℕ) (q : Ptr) (k : MmapHeader) (ds : List Cell) (r : Region) (rs : List Region)
    → AllAway p n (r ∷ rs)
    → Away p n (region q k ds)
    → AllAway p n (linked q r rs ++ region q k ds ∷ [])
AllAway-linked p n q k ds r [] (o, _) o' = (o, (o', tt))
AllAway-linked p n q k ds r (x ∷ rs) (o, os) o' = (o, AllAway-linked p n q k ds x rs os o')

pub first_of-linked :
    (q : Ptr) (r : Region) (rs ys : List Region) → first_of (linked q r rs ++ ys) ≡ r.at
first_of-linked q r [] ys = refl
first_of-linked q r (x ∷ rs) ys = refl

pub length-linked :
    (q : Ptr) (r x : Region) (rs : List Region)
    → length (linked q r rs ++ x ∷ []) ≡ suc (length (r ∷ rs))
length-linked q r x [] = refl
length-linked q r x (y ∷ rs) = ap suc (length-linked q y x rs)

pub inside-out :
    (p n : ℕ) (r : Region) (x : Ptr)
    → Away p n r
    → r.at ≤ x
    → x < r.at + r.head.size
    → (x < p) ⊎ (p + n ≤ x)
inside-out p n r x o lo hi = elim o [ inl a ↦ inr (omega arith) | inr b ↦ inl (omega arith) ]

Away-flip :
    (p n : ℕ) (r : Region) (k : MmapHeader) (ds : List Cell)
    → Away p n r
    → k.size ≡ n
    → Away r.at r.head.size (region p k ds)
Away-flip p n r k ds o e = elim o [ inl a ↦ inr (omega (arith, e)) | inr b ↦ inl b ]

module _ (s t : State) (p n : ℕ) (k : MmapHeader) (ds : List Cell) where
  pub Regions-linked :
      (prev : Ptr) (r : Region) (rs : List Region)
      → Regions s prev (r ∷ rs)
      → AllAway p n (r ∷ rs)
      → Grew s t p n (last_of r.at rs) (last_head r rs)
      → IsMmap t p k ds
      → k.size ≡ n
      → k.prev ≡ last_of r.at rs
      → k.next ≡ null
      → Regions t prev (linked p r rs ++ region p k ds ∷ [])
  Regions-linked prev r [] (v, e, next, o, vs) (away, _) g w size back end = (
    IsMmap-head v g.block_size (λ x lo hi. g.mapped x (inside-out p n r x away lo hi))
        (λ x lo hi. g.blocks x (inside-out p n r x away lo hi)) g.tail refl refl refl refl refl,
    e,
    refl,
    (Away-flip p n r k ds away size, tt),
    (w, back, end, tt, tt),
  )
  Regions-linked prev r (q ∷ rs) (v, e, next, o, vs) (away, os) g w size back end = (
    IsMmap-Spared
        (record {
          block_size = g.block_size;
          mapped = λ x lo hi. g.mapped x (inside-out p n r x away lo hi);
          mmaps = λ x lo hi.
              g.mmaps x (inside-out p n r x away lo hi)
                (elim (AllAway-last s r.at r.head.size r.at q rs vs o) [
                  | inl a ↦ omega arith
                  | inr b ↦ omega arith
                ]);
          blocks = λ x lo hi. g.blocks x (inside-out p n r x away lo hi);
        })
        v,
    e,
    next ∙ sym (first_of-linked p q rs _),
    AllAway-linked r.at r.head.size p k ds q rs o (Away-flip p n r k ds away size),
    Regions-linked r.at q rs vs os g w size back end,
  )
