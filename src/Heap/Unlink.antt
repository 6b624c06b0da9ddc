-- ===== src/Heap/Unlink.antt =====
-- A block leaves the list of MMAP blocks.
use vgc_malloc.Base.{
  ℕ, suc, ◌+◌, ◌≡◌, ◌≢◌, refl, ◌<◌, ◌≤◌, ◌⊎◌, inl, inr, ◌∙◌, sym, ap, some, List, [], ◌∷◌, ◌++◌,
  arith, length,
}
use mathlib.Core.Path.{subst}
use vgc_malloc.Memory.{Ptr, null, MmapHeader, State}
use vgc_malloc.Heap.{Region, region, first_of, Away, AllAway, Regions}
use vgc_malloc.Heap.Frame.{
  Spared, AllSpared, IsMmap-head, IsMmap-Spared, Regions-Spared, AllAway-found,
}
use vgc_malloc.Heap.Link.{inside-out}

-- The blocks behind, with `prev` before them.
abbrev pub back : Ptr → List Region → List Region
back prev [] = []
back prev (y ∷ ys) = region y.at (record y.head { prev = prev }) y.cells ∷ ys

-- The blocks `xs` and `ys` without the block that has stood between them.
abbrev pub unlinked : Ptr → List Region → List Region → List Region
unlinked prev [] ys = back prev ys
unlinked prev (x ∷ []) ys =
    region x.at (record x.head { next = first_of ys }) x.cells ∷ back x.at ys
unlinked prev (x ∷ y ∷ xs) ys = x ∷ unlinked x.at (y ∷ xs) ys

-- Between `s` and `t` the block with the header `h` at `m` has left the list: things have changed in it,
-- and the headers before and behind it are linked to each other.
pub record Unlinked (s t : State) (m : Ptr) (h : MmapHeader) : Type 0 where
  pub block_size : t.shared.mmap_block_size ≡ s.shared.mmap_block_size
  pub mapped : (x : Ptr) → (x < m) ⊎ (m + h.size ≤ x) → t.mapped x ≡ s.mapped x
  pub blocks : (x : Ptr) → (x < m) ⊎ (m + h.size ≤ x) → t.blocks x ≡ s.blocks x
  pub mmaps :
      (x : Ptr) → (x < m) ⊎ (m + h.size ≤ x) → x ≢ h.prev → x ≢ h.next → t.mmaps x ≡ s.mmaps x
  pub tail :
      (k : MmapHeader)
      → h.next ≢ null
      → s.mmaps h.next ≡ some k
      → t.mmaps h.next ≡ some (record k { prev = h.prev })
  pub lead :
      (k : MmapHeader)
      → h.prev ≢ null
      → s.mmaps h.prev ≡ some k
      → t.mmaps h.prev ≡ some (record k { next = h.next })

-- The address is in none of the blocks.
abbrev pub Off : Ptr → List Region → Type 0
Off q rs = (q ≡ null) ⊎ AllAway q 1 rs

AllAway-front :
    (p n : ℕ) (xs : List Region) (ys : List Region)
    → 0 < n
    → AllAway p n (xs ++ ys)
    → AllAway p 1 ys
AllAway-front p n [] [] pos o = tt
AllAway-front p n [] (y ∷ ys) pos (o, os) =
    (elim o [ inl a ↦ inl (omega arith) | inr b ↦ inr b ], AllAway-front p n [] ys pos os)
AllAway-front p n (x ∷ xs) ys pos (o, os) = AllAway-front p n xs ys pos os

AllAway-back : (p n : ℕ) (q : Ptr) (ys : List Region) → AllAway p n ys → AllAway p n (back q ys)
AllAway-back p n q [] o = tt
AllAway-back p n q (y ∷ ys) o = o

pub first_of-back : (q : Ptr) (ys : List Region) → first_of (back q ys) ≡ first_of ys
first_of-back q [] = refl
first_of-back q (y ∷ ys) = refl

pub AllAway-unlinked :
    (p n : ℕ) (prev : Ptr) (xs : List Region) (r : Region) (ys : List Region)
    → AllAway p n (xs ++ r ∷ ys)
    → AllAway p n (unlinked prev xs ys)
AllAway-unlinked p n prev [] r ys (o, os) = AllAway-back p n prev ys os
AllAway-unlinked p n prev (x ∷ []) r ys (o, (o', os)) = (o, AllAway-back p n x.at ys os)
AllAway-unlinked p n prev (x ∷ y ∷ xs) r ys (o, os) =
    (o, AllAway-unlinked p n x.at (y ∷ xs) r ys os)

pub first_of-unlinked :
    (prev : Ptr) (x : Region) (xs ys : List Region) → first_of (unlinked prev (x ∷ xs) ys) ≡ x.at
first_of-unlinked prev x [] ys = refl
first_of-unlinked prev x (y ∷ xs) ys = refl

length-back : (q : Ptr) (ys : List Region) → length (back q ys) ≡ length ys
length-back q [] = refl
length-back q (y ∷ ys) = refl

pub length-unlinked :
    (prev : Ptr) (xs ys : List Region) → length (unlinked prev xs ys) ≡ length (xs ++ ys)
length-unlinked prev [] ys = length-back prev ys
length-unlinked prev (x ∷ []) ys = ap (λ n. suc n) (length-back x.at ys)
length-unlinked prev (x ∷ y ∷ xs) ys = ap (λ n. suc n) (length-unlinked x.at (y ∷ xs) ys)

module _ (s : State) (r : Region) where
  -- The neighbours of `r` do not start in a block that stands further in front.
  pub prev_off :
      (q y : Region) (prev : Ptr) (xs ys : List Region)
      → Regions s prev (y ∷ xs ++ r ∷ ys)
      → AllAway q.at q.head.size (y ∷ xs ++ r ∷ ys)
      → Away r.head.prev 1 q
  prev_off q y prev [] ys (v, _, _, _, (_, e, _, _, _)) (o, _) = elim o [
    | inl a ↦ inr (omega (arith, e))
    | inr b ↦ inl (omega (arith, e, v.filled))
  ]
  prev_off q y prev (x ∷ xs) ys (v, _, _, _, vs) (_, os) = prev_off q x y.at xs ys vs os

  pub next_off :
      (q : Region) (prev : Ptr) (xs ys : List Region)
      → Regions s prev (xs ++ r ∷ ys)
      → AllAway q.at q.head.size (xs ++ r ∷ ys)
      → (r.head.next ≡ null) ⊎ Away r.head.next 1 q
  next_off q prev [] [] (_, _, n, _, _) _ = inl n
  next_off q prev [] (y ∷ ys) (_, _, n, _, (v, _, _, _, _)) (_, (o, _)) =
      inr (elim o [ inl a ↦ inr (omega (arith, n)) | inr b ↦ inl (omega (arith, n, v.filled)) ])
  next_off q prev (x ∷ xs) ys (_, _, _, _, vs) (_, os) = next_off q x.at xs ys vs os

module _ (s t : State) (r : Region) (u : Unlinked s t r.at r.head) where
  -- A block in which neither neighbour of `r` starts.
  Unlinked-Spared :
      (q : Region)
      → 0 < q.at
      → Away r.at r.head.size q
      → (r.head.prev ≡ null) ⊎ Away r.head.prev 1 q
      → (r.head.next ≡ null) ⊎ Away r.head.next 1 q
      → Spared s t q.at q.head.size
  Unlinked-Spared q pos o op on = record {
    block_size = u.block_size;
    mapped = λ x lo hi. u.mapped x (inside-out r.at r.head.size q x o lo hi);
    mmaps = λ x lo hi.
        u.mmaps x (inside-out r.at r.head.size q x o lo hi)
          (elim op [
            | inl z ↦ omega arith
            | inr w ↦ elim w [ inl a ↦ omega arith | inr b ↦ omega arith ]
          ])
          (elim on [
            | inl z ↦ omega arith
            | inr w ↦ elim w [ inl a ↦ omega arith | inr b ↦ omega arith ]
          ]);
    blocks = λ x lo hi. u.blocks x (inside-out r.at r.head.size q x o lo hi);
  }

  -- Blocks in which neither neighbour starts.
  AllUnlinked-Spared :
      (prev : Ptr) (qs : List Region)
      → Regions s prev qs
      → AllAway r.at r.head.size qs
      → Off r.head.prev qs
      → Off r.head.next qs
      → AllSpared s t qs
  AllUnlinked-Spared prev [] v o op on = tt
  AllUnlinked-Spared prev (q ∷ qs) (v, _, _, _, vs) (o, os) op on = (
    Unlinked-Spared q v.base o (elim op [ inl z ↦ inl z | inr (a, others) ↦ inr a ])
        (elim on [ inl z ↦ inl z | inr (a, others) ↦ inr a ]),
    AllUnlinked-Spared q.at qs vs os (elim op [ inl z ↦ inl z | inr (a, others) ↦ inr others ])
        (elim on [ inl z ↦ inl z | inr (a, others) ↦ inr others ]),
  )

  -- The blocks behind `r`, where the neighbour before it is in none of them.
  Regions-back :
      (ys : List Region)
      → Regions s r.at ys
      → r.head.next ≡ first_of ys
      → AllAway r.at r.head.size ys
      → Off r.head.prev ys
      → Regions t r.head.prev (back r.head.prev ys)
  Regions-back [] v next o op = tt
  Regions-back (y ∷ ys) (v, e, n, o', vs) next (o, os) op = (
    IsMmap-head v u.block_size (λ x lo hi. u.mapped x (inside-out r.at r.head.size y x o lo hi))
        (λ x lo hi. u.blocks x (inside-out r.at r.head.size y x o lo hi))
        (subst (λ z. t.mmaps z ≡ some (record y.head { prev = r.head.prev })) next
          (u.tail y.head (omega (arith, next, v.base)) (ap s.mmaps next ∙ v.here)))
        refl refl refl refl refl,
    refl,
    n,
    o',
    Regions-Spared s t y.at ys
        (AllUnlinked-Spared y.at ys vs os (elim op [ inl z ↦ inl z | inr (a, others) ↦ inr others ])
          (inr (
            subst (λ z. AllAway z 1 ys) (sym next)
              (AllAway-front y.at y.head.size [] ys (omega (arith, v.filled)) o'))))
        vs,
  )

  Away-turned : (q : Region) → Away q.at q.head.size r → Away r.at r.head.size q
  Away-turned q o = elim o [ inl a ↦ inr a | inr b ↦ inl b ]

  pub Regions-unlinked :
      (xs ys : List Region) (prev : Ptr)
      → Regions s prev (xs ++ r ∷ ys)
      → (xs ≡ [] → prev ≡ null)
      → Regions t prev (unlinked prev xs ys)
  Regions-unlinked [] ys prev (v, p, n, o, vs) top =
      subst (λ z. Regions t z (back z ys)) p (Regions-back ys vs n o (inl (p ∙ top refl)))
  Regions-unlinked (x ∷ []) ys prev (v, p, n, (o, os), (w, p', n', o', vs)) top = (
    IsMmap-head v u.block_size
        (λ z lo hi. u.mapped z (inside-out r.at r.head.size x z (Away-turned x o) lo hi))
        (λ z lo hi. u.blocks z (inside-out r.at r.head.size x z (Away-turned x o) lo hi))
        (subst (λ z. t.mmaps z ≡ some (record x.head { next = r.head.next })) p'
            (u.lead x.head (omega (arith, p', v.base)) (ap s.mmaps p' ∙ v.here))
          ∙ ap (λ z. some (record x.head { next = z })) n')
        refl refl refl refl refl,
    p,
    sym (first_of-back x.at ys),
    AllAway-back x.at x.head.size x.at ys os,
    subst (λ z. Regions t z (back z ys)) p'
        (Regions-back ys vs n' o' (
          inr (
            subst (λ z. AllAway z 1 ys) (sym p')
              (AllAway-front x.at x.head.size [] ys (omega (arith, v.filled)) os)))),
  )
  Regions-unlinked (x ∷ y ∷ xs) ys prev (v, p, n, o, vs) top = (
    IsMmap-Spared
        (Unlinked-Spared x v.base (Away-turned x (AllAway-found x.at x.head.size (y ∷ xs) r ys o))
          (inr (prev_off s r x y x.at xs ys vs o)) (next_off s r x x.at (y ∷ xs) ys vs o))
        v,
    p,
    n ∙ sym (first_of-unlinked x.at y xs ys),
    AllAway-unlinked x.at x.head.size x.at (y ∷ xs) r ys o,
    Regions-unlinked (y ∷ xs) ys x.at vs λ e. absurd (ground (arith, e)),
  )
