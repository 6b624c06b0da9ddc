-- ===== src/Heap/Serve.antt =====
-- The list of MMAP blocks after one of them has given out memory.
use vgc_malloc.Base.{
  ℕ, suc, ◌+◌, ◌≡◌, ◌≢◌, refl, ◌<◌, ◌≤◌, ◌⊎◌, inl, inr, ◌∙◌, ap, ap_at, List, [], ◌∷◌, ◌++◌, arith,
  length,
}
use mathlib.Core.Path.{subst}
use vgc_malloc.Memory.{Ptr, null, MmapHeader, State}
use vgc_malloc.Malloc.Block.{round_length}
use vgc_malloc.Chain.{Cell}
use vgc_malloc.Chain.Patch.{update_off}
use vgc_malloc.Chain.Mmap.{IsMmap}
use vgc_malloc.Chain.Take.{one_more}
use vgc_malloc.Chain.FirstFit.{Allocated, first_fit}
use vgc_malloc.Heap.{Region, region, first_of, Regions, IsHeap}
use vgc_malloc.Heap.Frame.{Confined, Regions-found, Regions-swap, first_of-swap}
use vgc_malloc.Heap.Walk.{Served}

module _ {s t : State} {m : Ptr} {h : MmapHeader} {cells : List Cell} {n a : ℕ} where
  pub Allocated-Confined : IsMmap s m h cells → Allocated s m h cells n a t → Confined s t m h.size
  Allocated-Confined v k = record {
    block_size = ap (λ x. x.mmap_block_size) k.shared;
    mapped = λ x o. ap_at k.mapped x;
    mmaps = λ x o. ap_at k.mmaps x ∙ update_off s.mmaps m _ (off x o);
    blocks = λ x o. k.outside x (elim o [ inl l ↦ inl (omega arith) | inr g ↦ inr g ]);
  }
    where
      off : (x : Ptr) → (x < m) ⊎ (m + h.size ≤ x) → x ≢ m
      off x o = elim o [ inl l ↦ omega arith | inr g ↦ omega (arith, v.filled) ]

-- The block with `n` bytes given out.
abbrev pub serve : State → ℕ → Region → Region
serve s n r =
    region r.at (one_more r.head)
      (first_fit n (round_length s.shared.is_mprotect_enabled s.shared.page_size n) r.cells)

pub length-swap :
    (xs : List Region) (r q : Region) (ys : List Region)
    → length (xs ++ r ∷ ys) ≡ length (xs ++ q ∷ ys)
length-swap [] r q ys = refl
length-swap (x ∷ xs) r q ys = ap suc (length-swap xs r q ys)

module _ {s t : State} {rs : List Region} {n a : ℕ} where
  pub Served-IsHeap :
      IsHeap s rs → (k : Served s rs n a t) → IsHeap t (k.before ++ serve s n k.found ∷ k.behind)
  Served-IsHeap v k =
      let g = k.given in
      let all : Regions s null (k.before ++ k.found ∷ k.behind) =
        subst (λ x. Regions s null x) k.list v.regions in
      record {
        regions =
            Regions-swap s t k.found (one_more k.found.head)
              (first_fit n (round_length s.shared.is_mprotect_enabled s.shared.page_size n)
                k.found.cells)
              null k.before k.behind all
              (Allocated-Confined (Regions-found s null k.before k.found k.behind all) g) g.valid
              refl refl refl;
        first =
            ap (λ x. x.mmap_block_first) g.shared
            ∙ v.first
            ∙ ap first_of k.list
            ∙ first_of-swap k.before k.found k.behind _ _;
        count =
            ap (λ x. x.mmap_block_count) g.shared
            ∙ v.count
            ∙ ap length k.list
            ∙ length-swap k.before k.found (serve s n k.found) k.behind;
      }
