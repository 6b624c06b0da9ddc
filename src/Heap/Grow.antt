-- ===== src/Heap/Grow.antt =====
-- mmapBlockAllocate behind the last MMAP block of the list.
use vgc_malloc.Base.{
  ℕ, suc, ◌+◌, ◌≡◌, refl, ◌<◌, ◌≤◌, ◌⊎◌, inl, inr, ◌∙◌, sym, ap, ap_at, some, true, List, [], ◌∷◌,
  ◌++◌, arith, Option, word_mod, eqb_false, ◌==◌, not,
}
use vgc_malloc.Memory.{
  Ptr, null, map_failed, MmapHeader, State, Run, ok, update, when, load_mmap, store_mmap, ◌>>=◌,
  sizeof_malloc_header, sizeof_mmap_header,
}
use vgc_malloc.Memory.Ends
use vgc_malloc.Memory.Ends.{Ends, ends, load_mmap-ok, store_mmap-ok}
use vgc_malloc.System.{System}
use vgc_malloc.System.Laws.{Answers}
use vgc_malloc.Malloc.Region.{mmap_block_allocate}
use vgc_malloc.Chain.Patch.{update_at, update_off}
use vgc_malloc.Chain.Mmap.{IsMmap}
use vgc_malloc.Chain.Fresh.{
  fresh_after, fresh_cells, one_block_more, Mapped, Filled, fill_mmap-Filled, alloc_mmap_filled,
}
use vgc_malloc.Heap.{Region, region, last_of, AllAway, Regions, IsHeap}
use vgc_malloc.Heap.Link.{
  linked, last_head, Grew, AllAway-last, Regions-last, Regions-linked, length-linked,
  first_of-linked,
}

-- The list with a new block of `size` bytes at `p`.
abbrev pub grown : Ptr → ℕ → Region → List Region → List Region
grown p size r rs =
    linked p r rs ++ region p (fresh_after (last_of r.at rs) size) (fresh_cells size) ∷ []

module _ (sys : System) (good : Answers sys) (p : Ptr) (size : ℕ) (s : State) (r : Region)
    (rs : List Region) where
  abbrev last : Ptr
  last = last_of r.at rs

  abbrev relinked : State → Ptr → Option MmapHeader
  relinked w =
      update (update w.mmaps p (some (fresh_after last size))) last
        (some (record (last_head r rs) { next = p }))

  Filled-Grew :
      {w t : State}
      → (last < p) ⊎ (p + size ≤ last)
      → sizeof_mmap_header + sizeof_malloc_header ≤ size
      → Mapped s p size w
      → Filled w p size last (relinked w) t
      → Grew s t p size last (last_head r rs)
  Filled-Grew {w} apart room k f = record {
    block_size = ap (λ x. x.mmap_block_size) (f.shared ∙ ap one_block_more k.shared);
    mapped = λ x o. ap_at f.mapped x ∙ k.mapped x o;
    blocks =
        λ x o. f.blocks x (elim o [ inl a ↦ omega arith | inr b ↦ omega arith ]) ∙ k.blocks x o;
    mmaps = λ x o e.
        ap_at f.mmaps x
        ∙ update_off (update w.mmaps p _) last _ e
        ∙ update_off w.mmaps p _ (elim o [ inl a ↦ omega arith | inr b ↦ omega arith ])
        ∙ k.mmaps x o;
    tail =
        ap_at f.mmaps last
        ∙ update_at (update w.mmaps p (some (fresh_after last size))) last _ refl;
  }

  -- The step that links the last block.
  link_last :
      (w : State)
      → Regions s null (r ∷ rs)
      → (last < p) ⊎ (p + size ≤ last)
      → 0 < size
      → Mapped s p size w
      → ◌≡◌ {A = Run (Unit {0})}
          (when
            (not (last == null))
            (do h ← load_mmap last; store_mmap last (record h { next = p }))
            (record w { mmaps = update w.mmaps p (some (fresh_after last size)) }))
          (ok tt (record w { mmaps = relinked w }))
  link_last w v apart pos k =
      let (here, mapped, base) = Regions-last s null r rs v in
      let u : State = record w { mmaps = update w.mmaps p (some (fresh_after last size)) } in
      let in_w : w.mapped last ≡ true = k.mapped last apart ∙ mapped in
      let head : u.mmaps last ≡ some (last_head r rs) =
        update_off w.mmaps p _ (elim apart [ inl a ↦ omega arith | inr b ↦ omega arith ])
        ∙ (k.mmaps last apart ∙ here) in
      rw
        (
          eqb_false {a = last} {b = 0} (omega (arith, base)),
          load_mmap-ok last u in_w head,
          store_mmap-ok last u (record (last_head r rs) { next = p }) in_w,
        )
        refl

  abbrev Linked : Ptr → State → Type 0
  Linked a t =
      (a ≡ p)
      × IsMmap t p (fresh_after last size) (fresh_cells size)
      × Grew s t p size last (last_head r rs)
      × (t.shared ≡ one_block_more s.shared)

  pub mmap_block_allocate-IsHeap :
      IsHeap s (r ∷ rs)
      → sys.mmap s.calls size ≡ some p
      → AllAway p size (r ∷ rs)
      → 0 < p
      → sizeof_mmap_header + sizeof_malloc_header ≤ size
      → size ≤ s.shared.mmap_block_size
      → p + s.shared.mmap_block_size < word_mod
      → Ends
          (λ a t. (a ≡ p) × IsHeap t (grown p size r rs) × (t.shared ≡ one_block_more s.shared))
          (mmap_block_allocate sys size last s)
  unfolding mmap_block_allocate
  mmap_block_allocate-IsHeap v got away pos room within bound =
      let apart = AllAway-last s p size null r rs v.regions away in
      Ends.seq {P = Linked} _
        (alloc_mmap_filled sys good p size last s (omega arith) got λ w k.
          let size' : w.shared.mmap_block_size ≡ s.shared.mmap_block_size =
            ap (λ x. x.mmap_block_size) k.shared in
          Ends.weaken
            (fill_mmap-Filled sys good p size last (relinked w) w pos room (omega (arith, size'))
              (omega (arith, size')) k.inside (link_last w v.regions apart (omega arith) k)
              (update_off (update w.mmaps p _) last _
                  (elim apart [ inl a ↦ omega arith | inr b ↦ omega arith ])
                ∙ update_at w.mmaps p _ refl))
            λ a t (e, f).
              (e, f.valid, Filled-Grew apart room k f, f.shared ∙ ap one_block_more k.shared))
        λ a t (e, valid, g, counted). rw (eqb_false {a = a} {b = map_failed} (omega (arith, e))) (
          ends (
            e,
            record {
              regions =
                  Regions-linked s t p size (fresh_after last size) (fresh_cells size) null r rs
                    v.regions away g valid refl refl refl;
              first =
                  ap (λ x. x.mmap_block_first) counted ∙ v.first ∙ sym (first_of-linked p r rs _);
              count =
                  ap (λ x. x.mmap_block_count) counted
                  ∙ ap suc v.count
                  ∙ sym (length-linked p r _ rs);
            },
            counted,
          ))
