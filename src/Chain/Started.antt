-- ===== src/Chain/Started.antt =====
-- The first vgc_malloc after the library is loaded.
use vgc_malloc.Base.{ℕ, ◌+◌, ◌≡◌, refl, ◌<◌, true, some, arith, ◌∙◌, ap, word_mod, eqb_false}
use mathlib.Core.Path.{subst}
use vgc_malloc.Memory.{
  Ptr, State, Shared, ◌>>=◌, shared_mutex, sizeof_malloc_header, sizeof_mmap_header,
}
use vgc_malloc.Memory.Ends
use vgc_malloc.Memory.Ends.{Ends, ends, After-Same}
use vgc_malloc.System.{System}
use vgc_malloc.System.Laws.{Answers, mutex_init-granted, mutexattr_init-granted}
use vgc_malloc.Malloc.Start.{started, create_shared, initialise_mutex, initialize_shared}
use vgc_malloc.Malloc.Api.{malloc, align_size}
use vgc_malloc.Chain.Mmap.{IsMmap}
use vgc_malloc.Chain.FirstFit.{Allocated}
use vgc_malloc.Chain.Fresh.{fresh, fresh_cells, mmap-gives}
use vgc_malloc.Chain.First.{with_first, malloc-first}

module _ (sys : System) (good : Answers sys) (size page p : ℕ) (s : State) where
  create_shared-started :
      sys.mmap s.calls size ≡ some p
      → 0 < p
      → Ends (λ a t. (a ≡ true) × (t.shared ≡ started page)) (create_shared sys size page s)
  unfolding create_shared
  create_shared-started got pos =
      Ends.seq _ (mmap-gives sys good p size s got)
        λ r t e. rw (e, eqb_false {a = p} {b = 0} (omega arith)) (ends (refl, refl))

  initialize_shared-started :
      sys.mmap s.calls size ≡ some p
      → 0 < p
      → Ends (λ a t. (a ≡ true) × (t.shared ≡ started page)) (initialize_shared sys size page s)
  unfolding initialize_shared initialise_mutex
  initialize_shared-started got pos = Ends.seq _ (create_shared-started got pos) λ a t (e, shared).
      rw e (
        Ends.seq _ (mutexattr_init-granted sys good shared_mutex t) λ b u (e', same). rw e' (
          Ends.seq _ (mutex_init-granted sys good shared_mutex u)
            λ c w (e'', same'). rw e'' (ends (refl, (same'.shared ∙ same.shared) ∙ shared))))

-- The outcome of the first vgc_malloc with this shared record.
abbrev FirstOf : Shared → Ptr → ℕ → Ptr → State → Type 0
FirstOf sh q size a t =
    (u : State) × (u.shared ≡ with_first sh q)
    × IsMmap u q (fresh sh.mmap_block_size) (fresh_cells sh.mmap_block_size)
    × Allocated u q (fresh sh.mmap_block_size) (fresh_cells sh.mmap_block_size)
        (align_size sh.is_mprotect_enabled size) a t

-- initializeShared and then vgc_malloc, with pages of 4096 bytes, where mmap gives `p` for VGC_shared
-- and `q` for an MMAP block that ends below 2 ^ 64, and every call on a mutex succeeds: both end without a fault. For a
-- positive size that fits an MMAP block of 8000 pages, vgc_malloc has made a well-formed MMAP block at
-- `q`, which is the first, and has handed out its first cell that fits.
pub initialize_shared-malloc :
    (sys : System) (shared_size p q size : ℕ) (s : State)
    → Answers sys
    → sys.mmap s.calls shared_size ≡ some p
    → 0 < p
    → ((n : ℕ) → sys.mmap n 32768000 ≡ some q)
    → 0 < q
    → q + 32768000 < word_mod
    → 0 < size
    → size + sizeof_mmap_header + sizeof_malloc_header < 32768000
    → Ends
        (λ a t.
          (u : State) × (u.shared ≡ with_first (started 4096) q)
          × IsMmap u q (fresh 32768000) (fresh_cells 32768000)
          × Allocated u q (fresh 32768000) (fresh_cells 32768000) size a t)
        ((do _ ← initialize_shared sys shared_size 4096; malloc sys size) s)
initialize_shared-malloc sys shared_size p q size s good got pos got' pos' bound positive room =
    Ends.seq _ (initialize_shared-started sys good shared_size 4096 p s got pos) λ a t (_, shared).
      let n' : t.shared.mmap_block_size ≡ 32768000 = ap (λ x. x.mmap_block_size) shared in
      let k : align_size t.shared.is_mprotect_enabled size ≡ size =
        ap (λ x. align_size x.is_mprotect_enabled size) shared in
      subst (λ sh. Ends (FirstOf sh q size) (malloc sys size t)) shared
        (malloc-first sys good q t size (ap (λ x. x.mmap_block_first) shared)
          (ap (λ x. x.page_size) shared) (ap (sys.mmap t.calls) n' ∙ got' t.calls) pos'
          (omega (arith, n')) positive (omega (arith, n', k)))
