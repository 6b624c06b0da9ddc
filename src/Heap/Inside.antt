-- ===== src/Heap/Inside.antt =====
-- isInMmapBlock on the list of MMAP blocks.
use vgc_malloc.Base.{
  ℕ, zero, suc, ◌+◌, ◌≡◌, refl, ◌<◌, inl, inr, sym, Bool, true, false, List, [], ◌∷◌, ◌++◌, arith,
  length, eqb_false, ltb, ltb-true, ◌&&◌, if◌then◌else◌, Bool-cases,
}
use mathlib.Core.Path.{subst}
use vgc_malloc.Memory.{Ptr, State, ok}
use vgc_malloc.Memory.Ends.{load_mmap-ok}
use vgc_malloc.Malloc.Check.{is_in_mmap_block, in_mmap_loop}
use vgc_malloc.Heap.{Region, first_of, Regions, IsHeap}

-- Whether the pointer is behind the start of some block by less than `n` bytes.
pub contains : ℕ → Ptr → List Region → Bool
contains n ptr [] = false
contains n ptr (r ∷ rs) = if ltb r.at ptr && ltb ptr (r.at + n) then true else contains n ptr rs

in_mmap_loop-contains :
    (k : ℕ) (ptr prev : Ptr) (s : State) (rs : List Region)
    → Regions s prev rs
    → length rs < k
    → in_mmap_loop k ptr (first_of rs) s ≡ ok (contains s.shared.mmap_block_size ptr rs) s
unfolding in_mmap_loop contains
in_mmap_loop-contains zero ptr prev s rs v fuel = absurd (omega arith)
in_mmap_loop-contains (suc k) ptr prev s [] v fuel = refl
in_mmap_loop-contains (suc k) ptr prev s (r ∷ rs) (v, e, next, o, vs) fuel =
    rw
      (
        eqb_false {a = r.at} {b = 0} (omega (arith, v.base)),
        load_mmap-ok r.at s (v.mapped r.at (omega arith) (omega (arith, v.filled))) v.here,
      )
      (elim (Bool-cases (ltb r.at ptr && ltb ptr (r.at + s.shared.mmap_block_size))) [
        | inl inside ↦ rw inside refl
        | inr outside ↦ rw (outside, next) (in_mmap_loop-contains k ptr r.at s rs vs (omega arith))
      ])

-- isInMmapBlock on a well-formed list of MMAP blocks ends without a fault and changes nothing: it
-- returns true exactly if the pointer lies behind the start of some block, and less than
-- mmapBlockSize behind it.
pub is_in_mmap_block-contains :
    (ptr : Ptr) (s : State) {rs : List Region}
    → IsHeap s rs
    → is_in_mmap_block ptr s ≡ ok (contains s.shared.mmap_block_size ptr rs) s
unfolding is_in_mmap_block
is_in_mmap_block-contains ptr s {rs} v =
    subst
      (λ x.
        in_mmap_loop (suc s.shared.mmap_block_count) ptr x s
        ≡ ok (contains s.shared.mmap_block_size ptr rs) s)
      (sym v.first)
      (in_mmap_loop-contains (suc s.shared.mmap_block_count) ptr 0 s rs v.regions
        (omega (arith, v.count)))

pub contains-found :
    (n ptr : ℕ) (xs : List Region) (r : Region) (ys : List Region)
    → r.at < ptr
    → ptr < r.at + n
    → contains n ptr (xs ++ r ∷ ys) ≡ true
unfolding contains
contains-found n ptr [] r ys low high = rw (ltb-true low, ltb-true high)
contains-found n ptr (x ∷ xs) r ys low high = ground (arith, contains-found n ptr xs r ys low high)
