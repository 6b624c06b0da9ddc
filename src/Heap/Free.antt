-- ===== src/Heap/Free.antt =====
-- vgc_free on the list of MMAP blocks, where the block of the pointer stays in use.
use vgc_malloc.Base.{
  true, ◌+◌, ◌-◌, ◌≡◌, ◌≢◌, refl, ◌<◌, ◌≤◌, ◌⊎◌, inl, inr, ◌∙◌, ap, ap_at, false, List, ◌∷◌, ◌++◌,
  arith, length,
}
use vgc_malloc.Memory.{
  Ptr, null, MmapHeader, State, ok, is_free, sizeof_mmap_header, sizeof_malloc_header,
}
use vgc_malloc.Memory.Ends
use vgc_malloc.Memory.Ends.{Ends, Same}
use vgc_malloc.Malloc.Check.{is_in_mmap_block}
use vgc_malloc.System.{System}
use vgc_malloc.System.Laws.{Locks}
use vgc_malloc.Malloc.Release.{page_of, vgc_free}
use vgc_malloc.Chain.{Cell, span}
use vgc_malloc.Chain.Patch.{update_off}
use vgc_malloc.Chain.Mmap.{IsMmap}
use vgc_malloc.Chain.Coalesce.{release_cell}
use vgc_malloc.Chain.Released.{Released, one_less}
use vgc_malloc.Chain.Freed.{vgc_free_found}
use vgc_malloc.Heap.{Region, region, IsHeap}
use vgc_malloc.Heap.Frame.{Confined, Regions-found, Regions-swap, first_of-swap}
use vgc_malloc.Heap.Serve.{length-swap}
use vgc_malloc.Heap.Inside.{is_in_mmap_block-contains, contains-found}
use vgc_malloc.Heap.Malloc.{IsHeap-Same}

Released-Confined :
    {s t : State} {m : Ptr} {h : MmapHeader} {xs : List Cell} {c : Cell} {ys : List Cell}
    → IsMmap s m h (xs ++ c ∷ ys)
    → Released s m h xs c ys t
    → Confined s t m h.size
Released-Confined {s} {m} {h} v k = record {
  block_size = ap (λ x. x.mmap_block_size) k.shared;
  mapped = λ x o. ap_at k.mapped x;
  mmaps = λ x o. ap_at k.mmaps x ∙ update_off s.mmaps m _ (off x o);
  blocks = λ x o. k.outside x (elim o [ inl l ↦ inl (omega arith) | inr g ↦ inr g ]);
}
  where
    off : (x : Ptr) → (x < m) ⊎ (m + h.size ≤ x) → x ≢ m
    off x o = elim o [ inl l ↦ omega arith | inr g ↦ omega (arith, v.filled) ]

-- isInMmapBlock finds a pointer into a block of the list.
pub found_inside :
    (before : List Region) (m : Ptr) (h : MmapHeader) (cells : List Cell) (behind : List Region)
    (ptr : Ptr) (s t : State)
    → IsHeap s (before ++ region m h cells ∷ behind)
    → Same s t
    → m < ptr
    → ptr < m + s.shared.mmap_block_size
    → is_in_mmap_block ptr t ≡ ok true t
found_inside before m h cells behind ptr s t v same low high =
    let size : t.shared.mmap_block_size ≡ s.shared.mmap_block_size =
      ap (λ x. x.mmap_block_size) same.shared in
    is_in_mmap_block-contains ptr t (IsHeap-Same same v)
    ∙ ap (λ b. ok b t)
        (contains-found t.shared.mmap_block_size ptr before (region m h cells) behind low
          (omega (arith, size)))

-- The list after a cell of one of its blocks is freed.
pub Released-IsHeap :
    (before : List Region) (m : Ptr) (h : MmapHeader) (xs : List Cell) (c : Cell) (ys : List Cell)
    (behind : List Region) {s t : State}
    → IsHeap s (before ++ region m h (xs ++ c ∷ ys) ∷ behind)
    → Released s m h xs c ys t
    → IsHeap t (before ++ region m (one_less h) (release_cell xs c ys) ∷ behind)
Released-IsHeap before m h xs c ys behind {s} {t} v k =
    let r = region m h (xs ++ c ∷ ys) in
    let w = Regions-found s null before r behind v.regions in
    record {
      regions =
          Regions-swap s t r (one_less h) (release_cell xs c ys) null before behind v.regions
            (Released-Confined w k) k.valid refl refl refl;
      first = ap (λ x. x.mmap_block_first) k.shared ∙ v.first ∙ first_of-swap before r behind _ _;
      count =
          ap (λ x. x.mmap_block_count) k.shared
          ∙ v.count
          ∙ length-swap before r (region m (one_less h) (release_cell xs c ys)) behind;
    }

module _ (sys : System) (locks : Locks sys) (before : List Region) (m : Ptr) (h : MmapHeader)
    (xs : List Cell) (c : Cell) (ys : List Cell) (behind : List Region) where
  -- vgc_free on a well-formed list of MMAP blocks, with every lock granted, for an address in any of
  -- the blocks whose page is that behind the header of a busy cell, where at least two cells of that
  -- block are left after the joining: it ends without a fault, frees the cell and joins it with its
  -- free neighbours; the list of MMAP blocks is well-formed afterwards, with that block changed and no
  -- other.
  pub vgc_free-IsHeap :
      (ptr : Ptr) (s : State)
      → IsHeap s (before ++ region m h (xs ++ c ∷ ys) ∷ behind)
      → is_free c.status ≡ false
      → 1 < length (release_cell xs c ys)
      → m < ptr
      → ptr < m + s.shared.mmap_block_size
      → page_of s.shared.is_mprotect_enabled s.shared.page_size ptr - sizeof_malloc_header
        ≡ m + sizeof_mmap_header + span xs
      → Ends
          (λ _ t.
            Released s m h xs c ys t
            × IsHeap t (before ++ region m (one_less h) (release_cell xs c ys) ∷ behind))
          (vgc_free sys ptr s)
  vgc_free-IsHeap ptr s v used two low high found =
      let w = Regions-found s null before (region m h (xs ++ c ∷ ys)) behind v.regions in
      Ends.weaken
        (vgc_free_found sys locks m h xs c ys ptr s w used two (omega arith)
          (λ t same. found_inside before m h (xs ++ c ∷ ys) behind ptr s t v same low high) found)
        λ _ t k. (k, Released-IsHeap before m h xs c ys behind v k)
