-- ===== src/Heap/Frame.antt =====
-- The list of MMAP blocks under changes of the memory elsewhere, and with one block changed.
use vgc_malloc.Base.{
  ℕ, ◌+◌, ◌≡◌, refl, ◌≤◌, ◌<◌, ◌⊎◌, inl, inr, ◌∙◌, sym, List, [], ◌∷◌, ◌++◌, arith, some,
}
use vgc_malloc.Memory.{Ptr, null, MmapHeader, State, sizeof_mmap_header}
use vgc_malloc.Memory.Ends.{Same}
use vgc_malloc.Chain.{Cell}
use vgc_malloc.Chain.Frame.{frame}
use vgc_malloc.Chain.Mmap.{IsMmap}
use vgc_malloc.Chain.FirstFit.{IsMmap-Same}
use vgc_malloc.Heap.{Region, region, first_of, Away, AllAway, Regions}

-- Between `s` and `t` nothing has changed in the `n` bytes from `m` on.
pub record Spared (s t : State) (m n : ℕ) : Type 0 where
  pub block_size : t.shared.mmap_block_size ≡ s.shared.mmap_block_size
  pub mapped : (x : Ptr) → m ≤ x → x < m + n → t.mapped x ≡ s.mapped x
  pub mmaps : (x : Ptr) → m ≤ x → x < m + n → t.mmaps x ≡ s.mmaps x
  pub blocks : (x : Ptr) → m ≤ x → x < m + n → t.blocks x ≡ s.blocks x

abbrev pub AllSpared : State → State → List Region → Type 0
AllSpared s t [] = Unit {0}
AllSpared s t (r ∷ rs) = Spared s t r.at r.head.size × AllSpared s t rs

-- A block whose header may have changed, while the rest of it is spared.
pub IsMmap-head :
    {s t : State} {m : Ptr} {h k : MmapHeader} {cells : List Cell}
    → IsMmap s m h cells
    → t.shared.mmap_block_size ≡ s.shared.mmap_block_size
    → ((x : Ptr) → m ≤ x → x < m + h.size → t.mapped x ≡ s.mapped x)
    → ((x : Ptr) → m ≤ x → x < m + h.size → t.blocks x ≡ s.blocks x)
    → t.mmaps m ≡ some k
    → k.size ≡ h.size
    → k.max_size ≡ h.max_size
    → k.elements ≡ h.elements
    → k.check_start ≡ h.check_start
    → k.check_end ≡ h.check_end
    → IsMmap t m k cells
IsMmap-head {s} {t} {m} {cells} v size mapped blocks here e f g i j = record {
  base = v.base;
  here = here;
  chain =
      frame s.blocks t.blocks m null (m + sizeof_mmap_header) cells null v.chain
        λ x lo hi. blocks x (omega arith) (omega (arith, v.filled));
  nonempty = v.nonempty;
  filled = v.filled ∙ sym e;
  max = omega (arith, v.max, e, f);
  within = omega (arith, v.within, e, size);
  bound = omega (arith, v.bound, size);
  mapped = λ x lo hi. mapped x lo (omega (arith, e)) ∙ v.mapped x lo (omega (arith, e));
  elements = g ∙ v.elements;
  check_start = i ∙ v.check_start;
  check_end = j ∙ v.check_end;
}

pub IsMmap-Spared :
    {s t : State} {m : Ptr} {h : MmapHeader} {cells : List Cell}
    → Spared s t m h.size
    → IsMmap s m h cells
    → IsMmap t m h cells
IsMmap-Spared {m} k v =
    IsMmap-head v k.block_size k.mapped k.blocks
      (k.mmaps m (omega arith) (omega (arith, v.filled)) ∙ v.here) refl refl refl refl refl

pub Regions-Spared :
    (s t : State) (prev : Ptr) (rs : List Region)
    → AllSpared s t rs
    → Regions s prev rs
    → Regions t prev rs
Regions-Spared s t prev [] k v = tt
Regions-Spared s t prev (r ∷ rs) (k, ks) (v, p, n, o, vs) =
    (IsMmap-Spared k v, p, n, o, Regions-Spared s t r.at rs ks vs)

pub Regions-Same :
    (s t : State) (prev : Ptr) (rs : List Region) → Same s t → Regions s prev rs → Regions t prev rs
Regions-Same s t prev [] same v = tt
Regions-Same s t prev (r ∷ rs) same (v, p, n, o, vs) =
    (IsMmap-Same same v, p, n, o, Regions-Same s t r.at rs same vs)

-- Between `s` and `t` things have changed in the `n` bytes from `p` on only.
pub record Confined (s t : State) (p n : ℕ) : Type 0 where
  pub block_size : t.shared.mmap_block_size ≡ s.shared.mmap_block_size
  pub mapped : (x : Ptr) → (x < p) ⊎ (p + n ≤ x) → t.mapped x ≡ s.mapped x
  pub mmaps : (x : Ptr) → (x < p) ⊎ (p + n ≤ x) → t.mmaps x ≡ s.mmaps x
  pub blocks : (x : Ptr) → (x < p) ⊎ (p + n ≤ x) → t.blocks x ≡ s.blocks x

module _ {s t : State} {p n : ℕ} (c : Confined s t p n) where
  pub Confined-Spared : (r : Region) → Away p n r → Spared s t r.at r.head.size
  Confined-Spared r o = record {
    block_size = c.block_size;
    mapped = λ x lo hi. c.mapped x (side x lo hi);
    mmaps = λ x lo hi. c.mmaps x (side x lo hi);
    blocks = λ x lo hi. c.blocks x (side x lo hi);
  }
    where
      side : (x : Ptr) → r.at ≤ x → x < r.at + r.head.size → (x < p) ⊎ (p + n ≤ x)
      side x lo hi = elim o [ inl a ↦ inr (omega arith) | inr b ↦ inl (omega arith) ]

  pub Confined-AllSpared : (rs : List Region) → AllAway p n rs → AllSpared s t rs
  Confined-AllSpared [] o = tt
  Confined-AllSpared (r ∷ rs) (o, os) = (Confined-Spared r o, Confined-AllSpared rs os)

-- A block with another of the same place and size in its stead.
pub AllAway-swap :
    (p n : ℕ) (xs : List Region) (r : Region) (ys : List Region) (k : MmapHeader) (ds : List Cell)
    → k.size ≡ r.head.size
    → AllAway p n (xs ++ r ∷ ys)
    → AllAway p n (xs ++ region r.at k ds ∷ ys)
AllAway-swap p n [] r ys k ds e (o, os) =
    (elim o [ inl a ↦ inl a | inr b ↦ inr (omega (arith, e)) ], os)
AllAway-swap p n (x ∷ xs) r ys k ds e (o, os) = (o, AllAway-swap p n xs r ys k ds e os)

pub first_of-swap :
    (xs : List Region) (r : Region) (ys : List Region) (k : MmapHeader) (ds : List Cell)
    → first_of (xs ++ r ∷ ys) ≡ first_of (xs ++ region r.at k ds ∷ ys)
first_of-swap [] r ys k ds = refl
first_of-swap (x ∷ xs) r ys k ds = refl

-- A block in the midst of those it is apart from.
pub AllAway-found :
    (p n : ℕ) (xs : List Region) (r : Region) (ys : List Region)
    → AllAway p n (xs ++ r ∷ ys)
    → Away p n r
AllAway-found p n [] r ys (o, os) = o
AllAway-found p n (x ∷ xs) r ys (o, os) = AllAway-found p n xs r ys os

pub Regions-found :
    (s : State) (prev : Ptr) (xs : List Region) (r : Region) (ys : List Region)
    → Regions s prev (xs ++ r ∷ ys)
    → IsMmap s r.at r.head r.cells
Regions-found s prev [] r ys (v, p, n, o, vs) = v
Regions-found s prev (x ∷ xs) r ys (v, p, n, o, vs) = Regions-found s x.at xs r ys vs

-- The list with one block changed.
module _ (s t : State) (r : Region) (k : MmapHeader) (ds : List Cell) where
  pub Regions-swap :
      (prev : Ptr) (xs ys : List Region)
      → Regions s prev (xs ++ r ∷ ys)
      → Confined s t r.at r.head.size
      → IsMmap t r.at k ds
      → k.size ≡ r.head.size
      → k.prev ≡ r.head.prev
      → k.next ≡ r.head.next
      → Regions t prev (xs ++ region r.at k ds ∷ ys)
  Regions-swap prev [] ys (v, p, n, o, vs) c w e f g =
      (w, f ∙ p, g ∙ n, rw e o, Regions-Spared s t r.at ys (Confined-AllSpared c ys o) vs)
  Regions-swap prev (x ∷ xs) ys (v, p, n, o, vs) c w e f g = (
    IsMmap-Spared
        (Confined-Spared c x
          (elim (AllAway-found x.at x.head.size xs r ys o) [ inl a ↦ inr a | inr b ↦ inl b ]))
        v,
    p,
    n ∙ first_of-swap xs r ys k ds,
    AllAway-swap x.at x.head.size xs r ys k ds e o,
    Regions-swap x.at xs ys vs c w e f g,
  )
