-- ===== src/Heap/Made.antt =====
-- The first MMAP block of src/vgc_malloc.c, made for one of several threads: what it spares, and what
-- it means that two are made.
use vgc_malloc.Base.{
  ℕ, suc, ◌+◌, ◌≡◌, refl, ◌<◌, ◌≤◌, ◌⊎◌, inl, inr, ◌∙◌, sym, ap, ap_at, some, List, [], ◌∷◌, arith,
  word_mod, eqb_false,
}
use vgc_malloc.Memory.{
  Ptr, null, map_failed, MmapHeader, State, update, sizeof_malloc_header, sizeof_mmap_header,
}
use vgc_malloc.Memory.Ends
use vgc_malloc.Memory.Ends.{Ends, ends}
use vgc_malloc.System.{System}
use vgc_malloc.System.Laws.{Answers}
use vgc_malloc.Malloc.Region.{mmap_block_allocate}
use vgc_malloc.Chain.Patch.{update_at, update_off}
use vgc_malloc.Chain.Mmap.{IsMmap}
use vgc_malloc.Chain.Fresh.{
  fresh, fresh_cells, one_block_more, Made, fill_mmap-Filled, alloc_mmap_filled,
}
use vgc_malloc.Heap.{Region, IsHeap}
use vgc_malloc.Heap.Frame.{Spared}

-- A block of its own is made for a thread, and the others are spared.
abbrev pub Alone : State → Ptr → ℕ → Ptr → State → Type 0
Alone s p size a t =
    Made s p size a t × ((m : Ptr) (n : ℕ) → (p + size ≤ m) ⊎ (m + n ≤ p) → Spared s t m n)

module _ (sys : System) (good : Answers sys) (p : Ptr) (s : State) where
  pub make_first :
      (let size = s.shared.mmap_block_size in
        sys.mmap s.calls size ≡ some p
        → 0 < p
        → sizeof_mmap_header + sizeof_malloc_header ≤ size
        → p + size < word_mod
        → Ends (Alone s p size) (mmap_block_allocate sys size null s))
  unfolding mmap_block_allocate
  make_first got pos room bound =
      let size = s.shared.mmap_block_size in
      Ends.seq {P = Alone s p size} _
        (alloc_mmap_filled sys good p size null s (omega arith) got λ w k.
          let size' : w.shared.mmap_block_size ≡ s.shared.mmap_block_size =
            ap (λ x. x.mmap_block_size) k.shared in
          Ends.weaken
            (fill_mmap-Filled sys good p size null (update w.mmaps p (some (fresh size))) w pos room
              (omega (arith, size')) (omega (arith, size')) k.inside refl
              (update_at w.mmaps p _ refl))
            λ a t (e, f). (
              (e, f.valid, f.shared ∙ ap one_block_more k.shared),
              λ m n o.
                  let off : (x : Ptr) → m ≤ x → x < m + n → (x < p) ⊎ (p + size ≤ x) =
                    λ x lo hi. elim o [ inl y ↦ inr (omega arith) | inr y ↦ inl (omega arith) ] in
                  record {
                    block_size =
                        ap (λ x. x.mmap_block_size) (f.shared ∙ ap one_block_more k.shared);
                    mapped = λ x lo hi. ap_at f.mapped x ∙ k.mapped x (off x lo hi);
                    mmaps = λ x lo hi.
                        ap_at f.mmaps x
                        ∙ update_off w.mmaps p _
                            (elim (off x lo hi) [ inl y ↦ omega arith | inr y ↦ omega arith ])
                        ∙ k.mmaps x (off x lo hi);
                    blocks = λ x lo hi.
                        f.blocks x
                          (elim (off x lo hi) [ inl y ↦ omega arith | inr y ↦ omega arith ])
                        ∙ k.blocks x (off x lo hi);
                  },
            ))
        λ a t (made, spared).
          rw (eqb_false {a = a} {b = map_failed} (omega (arith, made.0))) (ends (made, spared))

-- Both blocks are made, well-formed and counted; the one at `q` is the first, no list of MMAP blocks
-- is well-formed, so the one at `p` is lost.
pub record Lost (s : State) (p q : Ptr) (t : State) : Type 0 where
  pub first : t.shared.mmap_block_first ≡ q
  pub count : t.shared.mmap_block_count ≡ suc (suc s.shared.mmap_block_count)
  pub lost : IsMmap t p (fresh s.shared.mmap_block_size) (fresh_cells s.shared.mmap_block_size)
  pub kept : IsMmap t q (fresh s.shared.mmap_block_size) (fresh_cells s.shared.mmap_block_size)
  pub no_heap : (rs : List Region) → ¬ IsHeap t rs

-- Without the link between the blocks there is no list of two.
pub unlinked :
    (t : State) (q size : ℕ) (rs : List Region)
    → t.shared.mmap_block_first ≡ q
    → t.shared.mmap_block_count ≡ 2
    → t.mmaps q ≡ some (fresh size)
    → 0 < q
    → ¬ IsHeap t rs
unlinked t q size [] e n h pos v = absurd (omega (arith, v.first))
unlinked t q size (r ∷ []) e n h pos v = absurd (omega (arith, v.count))
unlinked t q size (r ∷ r' ∷ rs) e n h pos v =
    let same : r.head ≡ fresh size =
      from_some (sym v.regions.0.here ∙ ap t.mmaps (sym v.first ∙ e) ∙ h) in
    let next : r.head.next ≡ null = ap (λ x. x.next) same in
    absurd (omega (arith, v.regions.2, next, v.regions.4.0.base))
  where
    from_some : {a b : MmapHeader} → some a ≡ some b → a ≡ b
    from_some e = cc

-- The store of mmapBlockFirst spares every block.
pub stored-Spared :
    (u : State) (q m n : ℕ)
    → Spared u (record u { shared = record u.shared { mmap_block_first = q } }) m n
stored-Spared u q m n = record {
  block_size = refl;
  mapped = λ x lo hi. refl;
  mmaps = λ x lo hi. refl;
  blocks = λ x lo hi. refl;
}
