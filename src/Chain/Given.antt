-- ===== src/Chain/Given.antt =====
-- vgc_malloc as a whole, where the first MMAP block has room.
use vgc_malloc.Base.{ℕ, suc, ◌≡◌, ◌<◌, List, arith, inl, inr, ◌∙◌, sym, ap, eqb_false, leb-false}
use mathlib.Core.Path.{subst}
use vgc_malloc.Memory.{Ptr, null, MmapHeader, State, shared_mutex}
use vgc_malloc.Memory.Ends
use vgc_malloc.Memory.Ends.{Ends, ends, After-Same, Same, load_mmap-ok}
use vgc_malloc.System.{System}
use vgc_malloc.System.Laws.{Locks, mutex_lock-Same}
use vgc_malloc.Malloc.Locks.{unlock_or_report-Same}
use vgc_malloc.Malloc.Api.{align_size, malloc_loop, malloc_locked, malloc_sized, malloc}
use vgc_malloc.Chain.{Cell}
use vgc_malloc.Chain.Search.{NoneFits}
use vgc_malloc.Chain.Mmap.{IsMmap}
use vgc_malloc.Chain.FirstFit.{Allocated, IsMmap-Same}
use vgc_malloc.Chain.Grant.{Allocated-then, Allocated-Same, alloc_malloc_block-Granted}

module _ (sys : System) (locks : Locks sys) {s : State} {h : MmapHeader} {cells : List Cell}
    (n : ℕ) where
  -- The loop ends at the first MMAP block.
  malloc_loop-first :
      s.shared.page_size ≡ 4096
      → IsMmap s s.shared.mmap_block_first h cells
      → ¬ NoneFits n cells
      → Ends
          (λ (a, _) t. Allocated s s.shared.mmap_block_first h cells n a t)
          (malloc_loop sys (suc s.shared.mmap_block_count) null s.shared.mmap_block_first n s)
  unfolding malloc_loop
  malloc_loop-first page v room =
      let m = s.shared.mmap_block_first in
      rw (eqb_false {a = m} {b = 0} (omega (arith, v.base))) (
        Ends.seq _ (alloc_malloc_block-Granted sys locks n page v) λ a t g. elim g [
          | inl (_, nofit, _) ↦ absurd (room nofit)
          | inr k ↦ rw (eqb_false {a = a} {b = 0} (omega (arith, k.address))) (ends k)
        ])

  malloc_locked-Allocated :
      s.shared.page_size ≡ 4096
      → IsMmap s s.shared.mmap_block_first h cells
      → ¬ NoneFits n cells
      → Ends (Allocated s s.shared.mmap_block_first h cells n) (malloc_locked sys n s)
  unfolding malloc_locked
  malloc_locked-Allocated page v room = Ends.seq _ (malloc_loop-first page v room) λ (a, last) t k.
      rw (eqb_false {a = a} {b = 0} (omega (arith, k.address))) (
        Ends.seq _ (unlock_or_report-Same sys shared_mutex _ t)
          λ _ u same. ends (Allocated-then k same))

module _ (sys : System) (locks : Locks sys) (m : Ptr) (s : State) {h : MmapHeader}
    {cells : List Cell} where
  pub malloc_sized-Allocated :
      (size : ℕ)
      → s.shared.page_size ≡ 4096
      → s.shared.mmap_block_first ≡ m
      → IsMmap s m h cells
      → 0 < size
      → align_size s.shared.is_mprotect_enabled size < h.max_size
      → ¬ NoneFits (align_size s.shared.is_mprotect_enabled size) cells
      → Ends
          (Allocated s m h cells (align_size s.shared.is_mprotect_enabled size))
          (malloc_sized sys size s)
  unfolding malloc_sized
  malloc_sized-Allocated size page first v pos small room =
      let n = align_size s.shared.is_mprotect_enabled size in
      let w = subst (λ x. IsMmap s x h cells) (sym first) v in
      rw
        (
          eqb_false {a = size} {b = 0} (omega arith),
          load_mmap-ok s.shared.mmap_block_first s
              (w.mapped s.shared.mmap_block_first (omega arith) (omega (arith, w.filled))) w.here,
          leb-false {a = h.max_size} {b = n} small,
        )
        (Ends.seq _ (mutex_lock-Same sys locks shared_mutex s) λ a t (e, same). rw e (
          Ends.weaken
            (malloc_locked-Allocated sys locks n (ap (λ x. x.page_size) same.shared ∙ page)
              (subst (λ x. IsMmap t x h cells)
                (sym (ap (λ x. x.mmap_block_first) same.shared ∙ first)) (IsMmap-Same same v))
              room)
            λ a u k.
              subst (λ x. Allocated s x h cells n a u)
                (ap (λ x. x.mmap_block_first) same.shared ∙ first) (Allocated-Same same k)))

  -- vgc_malloc where the first MMAP block is well-formed and has a free block with room for the
  -- aligned size, which is positive and below its maximal size: with every lock granted and pages of 4096 bytes it ends without a fault and hands
  -- out the first cell that fits, as allocMallocBlock does.
  pub malloc-Allocated :
      (size : ℕ)
      → s.shared.page_size ≡ 4096
      → s.shared.mmap_block_first ≡ m
      → IsMmap s m h cells
      → 0 < size
      → align_size s.shared.is_mprotect_enabled size < h.max_size
      → ¬ NoneFits (align_size s.shared.is_mprotect_enabled size) cells
      → Ends
          (Allocated s m h cells (align_size s.shared.is_mprotect_enabled size))
          (malloc sys size s)
  unfolding malloc
  malloc-Allocated size page first v pos small room =
      rw (eqb_false {a = s.shared.mmap_block_first} {b = 0} (omega (arith, first, v.base)))
        (malloc_sized-Allocated size page first v pos small room)
