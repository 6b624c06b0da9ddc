-- ===== src/Chain/First.antt =====
-- vgc_malloc on an empty heap.
use vgc_malloc.Base.{
  ℕ, ◌+◌, ◌≡◌, refl, ◌<◌, ◌≤◌, some, List, arith, ◌∙◌, ap, word_mod, eqb_true, eqb_false,
}
use mathlib.Core.Path.{subst}
use vgc_malloc.Memory.{
  Ptr, null, map_failed, MmapHeader, State, Shared, sizeof_malloc_header, sizeof_mmap_header,
}
use vgc_malloc.Memory.Ends
use vgc_malloc.Memory.Ends.{Ends, ends}
use vgc_malloc.System.{System}
use vgc_malloc.System.Laws.{Answers}
use vgc_malloc.Malloc.Region.{mmap_block_allocate}
use vgc_malloc.Malloc.Api.{align_size, malloc}
use vgc_malloc.Chain.{Cell}
use vgc_malloc.Chain.Search.{NoneFits}
use vgc_malloc.Chain.Mmap.{IsMmap}
use vgc_malloc.Chain.FirstFit.{Allocated}
use vgc_malloc.Chain.Fresh.{fresh, fresh_cells, one_block_more, Made, alloc_mmap-Made}
use vgc_malloc.Chain.Given.{malloc_sized-Allocated}

abbrev set_first : Ptr → Shared → Shared
set_first p sh = record sh { mmap_block_first = p }

first_set :
    {t : State} {p : Ptr} {h : MmapHeader} {cells : List Cell}
    → IsMmap t p h cells
    → IsMmap (record t { shared = set_first p t.shared }) p h cells
first_set v = record {
  base = v.base;
  here = v.here;
  chain = v.chain;
  nonempty = v.nonempty;
  filled = v.filled;
  max = v.max;
  within = v.within;
  bound = v.bound;
  mapped = v.mapped;
  elements = v.elements;
  check_start = v.check_start;
  check_end = v.check_end;
}

-- The shared record with a first MMAP block at `p`.
abbrev pub with_first : Shared → Ptr → Shared
with_first sh p = set_first p (one_block_more sh)

module _ (sys : System) (good : Answers sys) (p : Ptr) (s : State) where
  mmap_block_allocate-Made :
      (size : ℕ)
      → sys.mmap s.calls size ≡ some p
      → 0 < p
      → sizeof_mmap_header + sizeof_malloc_header ≤ size
      → size ≤ s.shared.mmap_block_size
      → p + s.shared.mmap_block_size < word_mod
      → Ends (Made s p size) (mmap_block_allocate sys size null s)
  unfolding mmap_block_allocate
  mmap_block_allocate-Made size got pos room within bound =
      Ends.seq _ (alloc_mmap-Made sys good p size s got pos room within bound)
        λ a t k. rw (eqb_false {a = a} {b = map_failed} (omega (arith, k.0))) (ends k)

  -- vgc_malloc without an MMAP block, where mmap gives `p` for the size of an MMAP block, every call
  -- on a mutex succeeds, the page has 4096 bytes, the block ends below 2 ^ 64, and the aligned size is positive and fits the block:
  -- it ends without a fault. It has made a well-formed MMAP block at `p`, which is the first, and has
  -- handed out its first cell that fits.
  pub malloc-first :
      (size : ℕ)
      → s.shared.mmap_block_first ≡ null
      → s.shared.page_size ≡ 4096
      → sys.mmap s.calls s.shared.mmap_block_size ≡ some p
      → 0 < p
      → p + s.shared.mmap_block_size < word_mod
      → 0 < size
      → align_size s.shared.is_mprotect_enabled size + sizeof_mmap_header + sizeof_malloc_header
        < s.shared.mmap_block_size
      → Ends
          (λ a t.
            (u : State) × (u.shared ≡ with_first s.shared p)
            × IsMmap u p (fresh s.shared.mmap_block_size) (fresh_cells s.shared.mmap_block_size)
            × Allocated u p
                (fresh s.shared.mmap_block_size)
                (fresh_cells s.shared.mmap_block_size)
                (align_size s.shared.is_mprotect_enabled size)
                a
                t)
          (malloc sys size s)
  unfolding malloc
  malloc-first size none_ page got pos bound positive room =
      let n = s.shared.mmap_block_size in
      rw (eqb_true none_) (
        Ends.seq _ (mmap_block_allocate-Made n got pos (omega arith) (omega arith) bound)
          λ a t (e, v, counted).
            let u : State = record t { shared = set_first p t.shared } in
            let shared' : u.shared ≡ with_first s.shared p = ap (set_first p) counted in
            let enabled' : u.shared.is_mprotect_enabled ≡ s.shared.is_mprotect_enabled =
              ap (λ x. x.is_mprotect_enabled) shared' in
            let k : align_size u.shared.is_mprotect_enabled size
                ≡ align_size s.shared.is_mprotect_enabled size =
              ap (λ b. align_size b size) enabled' in
            let refuted : ¬ NoneFits (align_size u.shared.is_mprotect_enabled size)
                (fresh_cells n) =
              λ (nofit, _). ground (arith, nofit, k) in
            rw (e, eqb_false {a = p} {b = map_failed} (omega arith))
              (Ends.weaken
                (malloc_sized-Allocated sys good.locks p u size
                  (ap (λ x. x.page_size) shared' ∙ page) refl (first_set v) positive
                  (omega (arith, k)) refuted)
                λ b w z. (
                  u,
                  shared',
                  first_set v,
                  subst (λ x. Allocated u p (fresh n) (fresh_cells n) x b w) k z,
                )))
