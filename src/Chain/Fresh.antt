-- ===== src/Chain/Fresh.antt =====
-- allocMMAP for the first MMAP block.
use vgc_malloc.Base.{
  ℕ, suc, ◌+◌, ◌-◌, ◌≡◌, ◌≢◌, refl, ◌<◌, ◌≤◌, ◌⊎◌, inl, inr, true, none, some, Option, not, ◌==◌,
  List, [], ◌∷◌, arith, ◌∙◌, ap, ap_at, word_mod, sub64, leb-true, ltb-true,
}
use vgc_malloc.Memory.{
  Ptr, null, MmapHeader, State, Run, Shared, ok, free, update, update_range, when, load_mmap,
  store_mmap, ◌>>=◌, check_mark, sizeof_malloc_header, sizeof_mmap_header, mmap_mutex,
}
use vgc_malloc.Memory.Ends
use vgc_malloc.Memory.Ends.{Ends, ends, After, After-Same, Same, store_mmap-ok, store_block-ok}
use vgc_malloc.System.{System, mmap}
use vgc_malloc.System.Laws.{
  Answers, mutex_lock-Same, mutex_unlock-granted, mutex_init-granted, mutexattr_init-granted,
}
use vgc_malloc.Mprotect.Laws.{mprotect-Same}
use vgc_malloc.Malloc.Region.{fill_mmap, alloc_mmap}
use vgc_malloc.Chain.{Cell, cell, header}
use vgc_malloc.Chain.Patch.{update_at, update_off}
use vgc_malloc.Chain.Mmap.{IsMmap}

-- The header of a new MMAP block behind the one at `last`.
abbrev pub fresh_after : Ptr → ℕ → MmapHeader
fresh_after last size = record {
  check_start = check_mark;
  size = size;
  max_size = size - sizeof_mmap_header - sizeof_malloc_header;
  elements = 0;
  prev = last;
  next = null;
  check_end = check_mark;
}

-- The header of a new MMAP block that is the first.
abbrev pub fresh : ℕ → MmapHeader
fresh size = fresh_after null size

-- Its only cell.
abbrev pub fresh_cells : ℕ → List Cell
fresh_cells size = cell (size - sizeof_mmap_header - sizeof_malloc_header) free ∷ []

abbrev pub one_block_more : Shared → Shared
one_block_more sh = record sh { mmap_block_count = suc sh.mmap_block_count }

-- What a new MMAP block at `p` is, after `s`.
abbrev pub Made : State → Ptr → ℕ → Ptr → State → Type 0
Made s p size a t =
    (a ≡ p) × IsMmap t p (fresh size) (fresh_cells size) × (t.shared ≡ one_block_more s.shared)

-- `t` differs from `s` in the `size` bytes from `p` on only, which are mapped.
pub record Mapped (s : State) (p size : ℕ) (t : State) : Type 0 where
  pub shared : t.shared ≡ s.shared
  pub inside : (x : Ptr) → p ≤ x → x < p + size → t.mapped x ≡ true
  pub mapped : (x : Ptr) → (x < p) ⊎ (p + size ≤ x) → t.mapped x ≡ s.mapped x
  pub mmaps : (x : Ptr) → (x < p) ⊎ (p + size ≤ x) → t.mmaps x ≡ s.mmaps x
  pub blocks : (x : Ptr) → (x < p) ⊎ (p + size ≤ x) → t.blocks x ≡ s.blocks x

-- What filling in the block at `p` has done, with `mm` for the MMAP headers.
pub record Filled (s : State) (p size last : ℕ) (mm : Ptr → Option MmapHeader) (t : State)
    : Type 0 where
  pub valid : IsMmap t p (fresh_after last size) (fresh_cells size)
  pub shared : t.shared ≡ one_block_more s.shared
  pub mapped : t.mapped ≡ s.mapped
  pub mmaps : t.mmaps ≡ mm
  pub blocks : (x : Ptr) → x ≢ p + sizeof_mmap_header → t.blocks x ≡ s.blocks x

update_range-off :
    {A : Type 0} (f : Ptr → A) (p n : ℕ) (a : A) (x : Ptr)
    → (x < p) ⊎ (p + n ≤ x)
    → update_range f p n a x ≡ f x
update_range-off f p n a x o = ground arith

module _ (sys : System) (good : Answers sys) (p : Ptr) (size : ℕ) where
  pub fill_mmap-Filled :
      (last : Ptr) (mm : Ptr → Option MmapHeader) (s : State)
      → 0 < p
      → sizeof_mmap_header + sizeof_malloc_header ≤ size
      → size ≤ s.shared.mmap_block_size
      → p + s.shared.mmap_block_size < word_mod
      → ((q : Ptr) → p ≤ q → q < p + size → s.mapped q ≡ true)
      → ◌≡◌ {A = Run (Unit {0})}
          (when
            (not (last == null))
            (do h ← load_mmap last; store_mmap last (record h { next = p }))
            (record s { mmaps = update s.mmaps p (some (fresh_after last size)) }))
          (ok tt (record s { mmaps = mm }))
      → mm p ≡ some (fresh_after last size)
      → Ends (λ a t. (a ≡ p) × Filled s p size last mm t) (fill_mmap sys p size last s)
  unfolding fill_mmap
  fill_mmap-Filled last mm s pos room within bound mapped link here =
      let e : sub64 (sub64 size sizeof_mmap_header) sizeof_malloc_header
          ≡ size - sizeof_mmap_header - sizeof_malloc_header =
        omega arith in
      let first =
        header p null null (cell (size - sizeof_mmap_header - sizeof_malloc_header) free) in
      rw
        (
          e,
          store_mmap-ok p s (fresh_after last size) (mapped p (omega arith) (omega arith)),
          link,
          store_block-ok (p + sizeof_mmap_header) (record s { mmaps = mm }) first
              (mapped (p + sizeof_mmap_header) (omega arith) (omega arith)),
        )
        (Ends.seq _ (mprotect-Same sys (p + sizeof_mmap_header) _) λ _ t same.
          Ends.seq _ (mutex_unlock-granted sys good (mmap_mutex p) t) λ a u (ok_, same').
            let all = After-Same same same' in
            rw ok_ (
              ends (
                refl,
                record {
                  valid = record {
                    base = pos;
                    here = ap_at all.mmaps p ∙ here;
                    chain = (
                      ap_at all.blocks (p + sizeof_mmap_header)
                          ∙ update_at s.blocks (p + sizeof_mmap_header) _ refl,
                      tt,
                    );
                    nonempty = omega arith;
                    filled = omega arith;
                    max = omega arith;
                    within = rw all.shared within;
                    bound = rw all.shared bound;
                    mapped = λ q lo hi. ap_at all.mapped q ∙ mapped q lo hi;
                    elements = refl;
                    check_start = refl;
                    check_end = refl;
                  };
                  shared = ap one_block_more all.shared;
                  mapped = all.mapped;
                  mmaps = all.mmaps;
                  blocks =
                      λ x o. ap_at all.blocks x ∙ update_off s.blocks (p + sizeof_mmap_header) _ o;
                },
              )))

  pub mmap-gives :
      (s : State) → sys.mmap s.calls size ≡ some p → Ends (λ a _. a ≡ some p) (mmap sys size s)
  unfolding mmap
  mmap-gives s got = rw (mmap, got) (ends refl)

  mmap-Mapped :
      (s : State)
      → 0 < size
      → sys.mmap s.calls size ≡ some p
      → Ends (λ a t. (a ≡ some p) × Mapped s p size t) (mmap sys size s)
  unfolding mmap
  mmap-Mapped s pos got =
      rw (mmap, got)
        (ends (
          refl,
          record {
            shared = refl;
            inside = λ q lo hi. rw (leb-true lo, ltb-true hi) refl;
            mapped = λ x o. update_range-off s.mapped p size true x o;
            mmaps = λ x o.
                update_off (update_range s.mmaps p size none) p _
                  (elim o [ inl a ↦ omega arith | inr b ↦ omega arith ])
                ∙ update_range-off s.mmaps p size none x o;
            blocks = λ x o. update_range-off s.blocks p size none x o;
          },
        ))

  -- allocMMAP up to the header: what holds of filling it in holds of the whole.
  pub alloc_mmap_filled :
      {Q : Ptr → State → Type 0} (last : Ptr) (s : State)
      → 0 < size
      → sys.mmap s.calls size ≡ some p
      → ((t : State) → Mapped s p size t → Ends Q (fill_mmap sys p size last t))
      → Ends Q (alloc_mmap sys size last s)
  unfolding alloc_mmap
  alloc_mmap_filled last s pos got fill = Ends.seq _ (mmap-Mapped s pos got) λ r t0 (e0, k). rw e0 (
      Ends.seq _ (mutexattr_init-granted sys good (mmap_mutex p) t0) λ a t (e, same). rw e (
        Ends.seq _ (mutex_init-granted sys good (mmap_mutex p) t) λ b u (e', same'). rw e' (
          Ends.seq _ (mutex_lock-Same sys good.locks (mmap_mutex p) u) λ c w (e'', same'').
            let all = After-Same (After-Same same same') same'' in
            rw e'' (
              fill w (record {
                shared = all.shared ∙ k.shared;
                inside = λ x lo hi. ap_at all.mapped x ∙ k.inside x lo hi;
                mapped = λ x o. ap_at all.mapped x ∙ k.mapped x o;
                mmaps = λ x o. ap_at all.mmaps x ∙ k.mmaps x o;
                blocks = λ x o. ap_at all.blocks x ∙ k.blocks x o;
              })))))

  -- allocMMAP for the first MMAP block, where mmap gives `p`, every call on a mutex succeeds, there is
  -- room for the headers, and the block ends below 2 ^ 64: it ends without a fault and makes a
  -- well-formed MMAP block at `p` with one free block that fills it, and counts it.
  pub alloc_mmap-Made :
      (s : State)
      → sys.mmap s.calls size ≡ some p
      → 0 < p
      → sizeof_mmap_header + sizeof_malloc_header ≤ size
      → size ≤ s.shared.mmap_block_size
      → p + s.shared.mmap_block_size < word_mod
      → Ends (Made s p size) (alloc_mmap sys size null s)
  alloc_mmap-Made s got pos room within bound = alloc_mmap_filled null s (omega arith) got λ w k.
      let size' : w.shared.mmap_block_size ≡ s.shared.mmap_block_size =
        ap (λ x. x.mmap_block_size) k.shared in
      Ends.weaken
        (fill_mmap-Filled null (update w.mmaps p (some (fresh size))) w pos room
          (omega (arith, size')) (omega (arith, size')) k.inside refl (update_at w.mmaps p _ refl))
        λ d v (e, f). (e, f.valid, f.shared ∙ ap one_block_more k.shared)
