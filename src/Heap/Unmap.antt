-- ===== src/Heap/Unmap.antt =====
-- vgc_free on the list of MMAP blocks, where the block of the pointer is free as a whole afterwards.
use vgc_malloc.Base.{
  ℕ, ◌+◌, ◌-◌, ◌≡◌, ◌≢◌, refl, ◌<◌, inl, inr, ◌∙◌, sym, ap, false, List, [], ◌∷◌, ◌++◌, arith,
  length, length-append, eqb_true, eqb_false, if◌then◌else◌,
}
use mathlib.Core.Path.{subst}
use vgc_malloc.Memory.{
  Ptr, null, MmapHeader, State, is_free, sizeof_mmap_header, sizeof_malloc_header,
}
use vgc_malloc.Memory.Ends
use vgc_malloc.Memory.Ends.{Ends}
use vgc_malloc.System.{System}
use vgc_malloc.System.Laws.{Locks}
use vgc_malloc.Malloc.Release.{page_of, release_if_free, vgc_free}
use vgc_malloc.Chain.{Cell, span}
use vgc_malloc.Chain.Coalesce.{release_cell}
use vgc_malloc.Chain.Released.{one_less, release_if_free-alone}
use vgc_malloc.Chain.Freed.{vgc_free_lem}
use vgc_malloc.Heap.{Region, region, Regions, IsHeap}
use vgc_malloc.Heap.Frame.{Regions-found, AllAway-found}
use vgc_malloc.Heap.Unlink.{
  back, unlinked, next_off, Regions-unlinked, first_of-unlinked, length-unlinked,
}
use vgc_malloc.Heap.Release.{Near, Apart, one_block_less, release_mmap-Unlinked}
use vgc_malloc.Heap.Free.{found_inside, Released-IsHeap}

module _ (s : State) (r : Region) where
  Near-next :
      (prev : Ptr) (xs ys : List Region)
      → Regions s prev (xs ++ r ∷ ys)
      → Near s r.at r.head.size r.head.next
  Near-next prev [] [] (v, p, n, o, vs) = inl n
  Near-next prev [] (y ∷ ys) (v, p, n, (o, os), (w, _, _, _, _)) = inr (
    y.head,
    omega (arith, n, w.base),
    ap s.mapped n ∙ w.mapped y.at (omega arith) (omega (arith, w.filled)),
    ap s.mmaps n ∙ w.here,
    elim o [ inl a ↦ inr (omega (arith, n)) | inr b ↦ inl (omega (arith, n, w.filled)) ],
  )
  Near-next prev (x ∷ xs) ys (v, p, n, o, vs) = Near-next x.at xs ys vs

  -- The neighbour before, and that the two are not the same.
  Near-prev :
      (xs ys : List Region) (prev : Ptr)
      → Regions s prev (xs ++ r ∷ ys)
      → (xs ≡ [] → prev ≡ null)
      → Near s r.at r.head.size r.head.prev × Apart r.head
  Near-prev [] [] prev (v, p, n, o, vs) top = (inl (p ∙ top refl), inr (p ∙ top refl, n))
  Near-prev [] (y ∷ ys) prev (v, p, n, o, (w, _, _, _, _)) top =
      (inl (p ∙ top refl), inl (omega (arith, p, top refl, n, w.base)))
  Near-prev (x ∷ []) ys prev (v, p, n, (o, os), vs) top = (
    inr (
      x.head,
      omega (arith, vs.1, v.base),
      ap s.mapped vs.1 ∙ v.mapped x.at (omega arith) (omega (arith, v.filled)),
      ap s.mmaps vs.1 ∙ v.here,
      elim o [ inl a ↦ inl (omega (arith, vs.1, v.filled)) | inr b ↦ inr (omega (arith, vs.1)) ],
    ),
    inl (elim (next_off s r x x.at [] ys vs (o, os)) [
      | inl z ↦ omega (arith, vs.1, v.base)
      | inr w ↦ elim w [ inl a ↦ omega (arith, vs.1) | inr b ↦ omega (arith, vs.1, v.filled) ]
    ]),
  )
  Near-prev (x ∷ y ∷ xs) ys prev (v, p, n, o, vs) top =
      Near-prev (y ∷ xs) ys x.at vs λ e. absurd (ground (arith, e))

-- What is left of the list is well-formed in memory, and the shared record has one block less.
abbrev Unmapped : State → List Region → Ptr → List Region → State → Type 0
Unmapped s before m behind t =
    Regions t null (unlinked null before behind) × (t.shared ≡ one_block_less m s.shared)

module _ (sys : System) (locks : Locks sys) (before : List Region) (m : Ptr) (h : MmapHeader)
    (behind : List Region) where
  -- The block has a single cell left.
  release_if_free-Unmapped :
      (s : State) (d : Cell)
      → IsHeap s (before ++ region m h (d ∷ []) ∷ behind)
      → Ends (λ _ t. Unmapped s before m behind t) (release_if_free sys m s)
  release_if_free-Unmapped s d v =
      let r = region m h (d ∷ []) in
      let w = Regions-found s null before r behind v.regions in
      let (near, apart) = Near-prev s r before behind null v.regions (λ e. refl) in
      subst (Ends (λ _ t. Unmapped s before m behind t))
        (sym (
          release_if_free-alone sys m [] s d w.chain.0
            (w.mapped (m + sizeof_mmap_header) (omega arith) (omega (arith, w.max)))))
        (Ends.weaken
          (release_mmap-Unlinked sys locks m h s
            (w.mapped m (omega arith) (omega (arith, w.filled))) w.here (omega (arith, w.filled))
            (Near-next s r null before behind v.regions) near apart)
          λ _ t (u, shared).
            (Regions-unlinked s t r u before behind null v.regions λ e. refl, shared))

module _ (sys : System) (locks : Locks sys) (before : List Region) (m : Ptr) (h : MmapHeader)
    (xs : List Cell) (c d : Cell) (ys : List Cell) (behind : List Region) where
  vgc_free-Unmapped :
      (ptr : Ptr) (s : State)
      → IsHeap s (before ++ region m h (xs ++ c ∷ ys) ∷ behind)
      → is_free c.status ≡ false
      → release_cell xs c ys ≡ d ∷ []
      → m < ptr
      → ptr < m + s.shared.mmap_block_size
      → page_of s.shared.is_mprotect_enabled s.shared.page_size ptr - sizeof_malloc_header
        ≡ m + sizeof_mmap_header + span xs
      → Ends (λ _ t. Unmapped s before m behind t) (vgc_free sys ptr s)
  vgc_free-Unmapped ptr s v used alone low high found =
      let w = Regions-found s null before (region m h (xs ++ c ∷ ys)) behind v.regions in
      vgc_free_lem sys locks m h xs c ys ptr s w used (omega (arith, ap length alone)) (omega arith)
        (λ t same. found_inside before m h (xs ++ c ∷ ys) behind ptr s t v same low high) found
        λ u k.
          Ends.weaken
            (release_if_free-Unmapped sys locks before m (one_less h) behind u d (
              subst (λ z. IsHeap u (before ++ region m (one_less h) z ∷ behind)) alone
                (Released-IsHeap before m h xs c ys behind v k)))
            λ _ t (regions, shared). (regions, shared ∙ ap (one_block_less m) k.shared)

count_less :
    (n : ℕ) (before : List Region) (r : Region) (behind : List Region)
    → n ≡ length (before ++ r ∷ behind)
    → n - 1 ≡ length (before ++ behind)
count_less n before r behind e =
    omega (arith, e, length-append before (r ∷ behind), length-append before behind)

-- A block behind another does not start where that one starts.
first_differs :
    (s : State) (x : Region) (xs : List Region) (r : Region) (behind : List Region)
    → Regions s null (x ∷ xs ++ r ∷ behind)
    → r.at ≢ x.at
first_differs s x xs r behind (v, _, _, o, vs) =
    elim (AllAway-found x.at x.head.size xs r behind o) [
      | inl a ↦ omega (arith, a, v.filled)
      | inr b ↦ omega (arith, b, (Regions-found s x.at xs r behind vs).filled)
    ]

module _ (sys : System) (locks : Locks sys) (m : Ptr) (h : MmapHeader) (xs : List Cell) (c d : Cell)
    (ys : List Cell) (behind : List Region) (ptr : Ptr) (s : State) where
  -- vgc_free of the last busy cell of an MMAP block that is not the first of a well-formed list, with
  -- every lock granted, whatever else the system answers: it ends without a fault, the neighbours of the
  -- block are linked to each other, and the list without it is well-formed.
  pub vgc_free-unlinked :
      (x : Region) (before : List Region)
      → IsHeap s (x ∷ before ++ region m h (xs ++ c ∷ ys) ∷ behind)
      → is_free c.status ≡ false
      → release_cell xs c ys ≡ d ∷ []
      → m < ptr
      → ptr < m + s.shared.mmap_block_size
      → page_of s.shared.is_mprotect_enabled s.shared.page_size ptr - sizeof_malloc_header
        ≡ m + sizeof_mmap_header + span xs
      → Ends (λ _ t. IsHeap t (unlinked null (x ∷ before) behind)) (vgc_free sys ptr s)
  vgc_free-unlinked x before v used alone low high found =
      let r = region m h (xs ++ c ∷ ys) in
      Ends.weaken
        (vgc_free-Unmapped sys locks (x ∷ before) m h xs c d ys behind ptr s v used alone low high
          found)
        λ _ t (regions, shared). record {
          regions = regions;
          first =
              ap (λ z. z.mmap_block_first) shared
              ∙ ap (λ b. if b then null else s.shared.mmap_block_first)
                  (eqb_false {a = m} {b = s.shared.mmap_block_first} (
                    subst (λ z. m ≢ z) (sym v.first) (first_differs s x before r behind v.regions)))
              ∙ v.first
              ∙ sym (first_of-unlinked null x before behind);
          count =
              ap (λ z. z.mmap_block_count) shared
              ∙ count_less s.shared.mmap_block_count (x ∷ before) r behind v.count
              ∙ sym (length-unlinked null (x ∷ before) behind);
        }

  -- The same for the first block of the list: it ends without a fault and the blocks behind are
  -- well-formed and linked, and counted, but no block is the first of the list any more. Where there
  -- is none behind, the list is empty and well-formed; else the others are lost.
  pub vgc_free-first :
      IsHeap s (region m h (xs ++ c ∷ ys) ∷ behind)
      → is_free c.status ≡ false
      → release_cell xs c ys ≡ d ∷ []
      → m < ptr
      → ptr < m + s.shared.mmap_block_size
      → page_of s.shared.is_mprotect_enabled s.shared.page_size ptr - sizeof_malloc_header
        ≡ m + sizeof_mmap_header + span xs
      → Ends
          (λ _ t.
            Regions t null (back null behind)
            × (t.shared.mmap_block_first ≡ null)
            × (t.shared.mmap_block_count ≡ length behind))
          (vgc_free sys ptr s)
  vgc_free-first v used alone low high found =
      Ends.weaken
        (vgc_free-Unmapped sys locks [] m h xs c d ys behind ptr s v used alone low high found)
        λ _ t (regions, shared). (
          regions,
          ap (λ z. z.mmap_block_first) shared
              ∙ ap (λ b. if b then null else s.shared.mmap_block_first)
                  (eqb_true {a = m} {b = s.shared.mmap_block_first} (sym v.first)),
          ap (λ z. z.mmap_block_count) shared
              ∙ count_less s.shared.mmap_block_count [] (region m h (xs ++ c ∷ ys)) behind v.count,
        )
