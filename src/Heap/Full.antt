-- ===== src/Heap/Full.antt =====
-- vgc_malloc on the list of MMAP blocks, where there is no memory for another.
use vgc_malloc.Base.{
  ◌==◌, ◌++◌, ℕ, suc, ◌≡◌, refl, ◌≤◌, ◌⊎◌, inl, inr, ◌∙◌, sym, ap, none, List, ◌∷◌, arith, eqb_true,
  eqb_false, leb, le_of_leb, Bool-cases,
}
use mathlib.Core.Path.{subst}
use vgc_malloc.Memory.{Ptr, null, State, shared_mutex}
use vgc_malloc.Memory.Ends
use vgc_malloc.Memory.Ends.{Ends, ends, Same-log, Same, After-Same, Same-refl, load_mmap-ok}
use vgc_malloc.System.{System}
use vgc_malloc.System.Laws.{Locks, mutex_lock-Same}
use vgc_malloc.Malloc.Locks.{unlock_or_report-Same}
use vgc_malloc.Malloc.Api.{align_size, malloc_loop, malloc_locked, malloc_sized, malloc}
use vgc_malloc.Malloc.Faults.{mmap_block_allocate-failed}
use vgc_malloc.Chain.Mmap.{IsMmap}
use vgc_malloc.Heap.{Region, NoRoom, IsHeap}
use vgc_malloc.Heap.Serve.{serve, Served-IsHeap}
use vgc_malloc.Heap.Walk.{Served, Walked, malloc_loop-Walked}
use vgc_malloc.Heap.Malloc.{IsHeap-Same, Same-Served, Served-then}

-- vgc_malloc has failed and changed nothing, or a block with room has served.
abbrev pub Tried : State → List Region → ℕ → Ptr → State → Type 0
Tried s rs n a t = ((a ≡ null) × NoRoom n rs × Same s t) ⊎ Served s rs n a t

module _ (size : ℕ) (s : State) (r : Region) (rs : List Region) where
  abbrev pub aligned : ℕ
  aligned = align_size s.shared.is_mprotect_enabled size

  -- vgc_malloc has failed, and why.
  abbrev pub Refused : Ptr → State → Type 0
  Refused a t =
      (a ≡ null) × Same s t × ((size ≡ 0) ⊎ ((r.head.max_size ≤ aligned) ⊎ NoRoom aligned (r ∷ rs)))

module _ (sys : System) (locks : Locks sys) (failing : (c len : ℕ) → sys.mmap c len ≡ none) where
  malloc_locked-Tried :
      (n : ℕ) (s : State) (rs : List Region)
      → s.shared.page_size ≡ 4096
      → IsHeap s rs
      → Ends (Tried s rs n) (malloc_locked sys n s)
  unfolding malloc_locked
  malloc_locked-Tried n s rs page v =
      let walk =
        malloc_loop-Walked sys locks n (suc s.shared.mmap_block_count) null null s rs page v.regions
          (omega (arith, v.count)) in
      Ends.seq _
        (subst
          (λ x.
            Ends (Walked s rs n null) (malloc_loop sys (suc s.shared.mmap_block_count) null x n s))
          (sym v.first) walk)
        λ (a, l) t w. elim w [
          | inl (z, last, full, same) ↦ rw (eqb_true z) (
              Ends.seq _ (mmap_block_allocate-failed sys failing _ l t) λ next u (e, same'). rw e (
                Ends.seq _ (unlock_or_report-Same sys shared_mutex _ u)
                  λ _ x same3. ends (inl (refl, full, After-Same same (After-Same same' same3)))))
          | inr k ↦ rw (eqb_false {a = a} {b = 0} (omega (arith, k.given.address))) (
              Ends.seq _ (unlock_or_report-Same sys shared_mutex _ t)
                λ _ u same. ends (inr (Served-then k same)))
        ]

  module _ (size : ℕ) (s : State) (r : Region) (rs : List Region) where
    -- The same with the test of the size.
    malloc_sized-Refused :
        s.shared.page_size ≡ 4096
        → IsHeap s (r ∷ rs)
        → Ends
            (λ a t. Refused size s r rs a t ⊎ Served s (r ∷ rs) (aligned size s r rs) a t)
            (malloc_sized sys size s)
    unfolding malloc_sized
    malloc_sized-Refused page v =
        let w = v.regions.0 in
        let first : s.shared.mmap_block_first ≡ r.at = v.first in
        let w' = subst (λ x. IsMmap s x r.head r.cells) (sym first) w in
        elim (Bool-cases (size == 0)) [
          | inl z ↦ rw z (ends (inl (refl, Same-log _ s, inl (ground arith))))
          | inr z ↦
              rw
                (
                  z,
                  load_mmap-ok s.shared.mmap_block_first s
                      (w'.mapped s.shared.mmap_block_first (omega arith) (omega (arith, w'.filled)))
                      w'.here,
                )
                (elim (Bool-cases (leb r.head.max_size (aligned size s r rs))) [
                  | inl b ↦ rw b (
                      ends
                        (inl (refl, Same-log _ s, inr (inl (le_of_leb _ (aligned size s r rs) b)))))
                  | inr b ↦ rw b (
                      Ends.seq _ (mutex_lock-Same sys locks shared_mutex s) λ a t (e, same). rw e (
                        Ends.weaken
                          (malloc_locked-Tried (aligned size s r rs) t (r ∷ rs)
                            (ap (λ x. x.page_size) same.shared ∙ page) (IsHeap-Same same v))
                          λ b u g. elim g [
                            | inl (z, full, same') ↦ inl (z, After-Same same same', inr (inr full))
                            | inr k ↦ inr (Same-Served same k)
                          ]))
                ])
        ]

    -- vgc_malloc without memory for another MMAP block: on a well-formed list of them that is not
    -- empty, with every lock granted and pages of 4096 bytes, where mmap fails, for any size: it ends
    -- without a fault. Either it returns null, and the shared record, the mapped memory and all
    -- headers are as before, and the size is 0, or the aligned size is not below the maximal size of
    -- the first block, or no block has room; or the first block with room gives out its first cell
    -- that fits, and the list of MMAP blocks is well-formed afterwards.
    pub malloc-Refused :
        s.shared.page_size ≡ 4096
        → IsHeap s (r ∷ rs)
        → Ends
            (λ a t.
              Refused size s r rs a t
              ⊎ (Served s (r ∷ rs) (aligned size s r rs) a t × ((qs : List Region) × IsHeap t qs)))
            (malloc sys size s)
    unfolding malloc
    malloc-Refused page v =
        rw
          (eqb_false {a = s.shared.mmap_block_first} {b = 0}
            (omega (arith, v.first, v.regions.0.base)))
          (Ends.weaken (malloc_sized-Refused page v) λ a t g. elim g [
            | inl f ↦ inl f
            | inr k ↦ inr (
              k,
              (k.before ++ serve s (aligned size s r rs) k.found ∷ k.behind, Served-IsHeap v k),
            )
          ])
