-- ===== src/Chain/Silent.antt =====
-- checkMmapBlock on a well-formed MMAP block of the full size: it finds the totals consistent.
use vgc_malloc.Base.{
  ℕ, zero, suc, ◌+◌, ◌≡◌, refl, ◌<◌, ◌≤◌, ap, Bool, true, List, [], ◌∷◌, arith, String, length,
  word_mod, eqb_false, eqb_true, ltb-false, inl, inr, Bool-cases,
}
use vgc_malloc.Memory.{
  Ptr, null, State, MmapHeader, MallocHeader, Run, is_free, ok, sizeof_malloc_header,
  sizeof_mmap_header,
}
use vgc_malloc.Memory.Ends.{load_block-ok, load_mmap-ok}
use vgc_malloc.Malloc.Sizes.{Sizes, no_sizes, add_block}
use vgc_malloc.Malloc.Check.{end_check, totals_agree, check_loop, check_mmap_block}
use vgc_malloc.Chain.Printed.{length-le-span}
use vgc_malloc.Chain.{Cell, end_of, span, Chain, header}
use vgc_malloc.Chain.Mmap.{IsMmap}

-- What the three sums cover.
abbrev covered : Sizes → ℕ
covered z = z.busy + z.free + z.headers

add_block-covered :
    (b : MallocHeader) (z : Sizes)
    → covered z + b.size + sizeof_malloc_header < word_mod
    → covered (add_block b z) ≡ covered z + b.size + sizeof_malloc_header
add_block-covered b z small = elim (Bool-cases (is_free b.status)) [
  | inl e ↦ rw e (omega arith)
  | inr e ↦ rw e (omega arith)
]

agree :
    (n : ℕ) (z : Sizes)
    → covered z + sizeof_mmap_header ≡ n
    → n < word_mod
    → totals_agree n z ≡ true
agree n z e small = eqb_true (omega arith)

module _ (str : String) (m : Ptr) (h : MmapHeader) (s : State) where
  check_loop-silent :
      (k : ℕ) (prev p : Ptr) (z : Sizes) (c : Cell) (cs : List Cell)
      → Chain s.blocks m prev p (c ∷ cs) null
      → 0 < p
      → m ≤ p
      → p + span (c ∷ cs) ≤ m + s.shared.mmap_block_size
      → span (c ∷ cs) ≤ h.max_size + sizeof_malloc_header
      → ((q : Ptr) → p ≤ q → q < p + span (c ∷ cs) → s.mapped q ≡ true)
      → length (c ∷ cs) < k
      → covered z + span (c ∷ cs) + sizeof_mmap_header ≡ s.shared.mmap_block_size
      → s.shared.mmap_block_size < word_mod
      → ◌≡◌ {A = Run Bool} (check_loop str k m h p z s) (ok true s)
  unfolding check_loop
  check_loop-silent zero prev p z c cs ch pos low top room mapped fuel all small =
      absurd (omega arith)
  check_loop-silent (suc k) prev p z c [] (hd, tl) pos low top room mapped fuel all small =
      rw
        (
          eqb_false {a = p} {b = 0} (omega arith),
          load_block-ok p s (mapped p (omega arith) (omega arith)) hd,
          ltb-false {a = h.max_size} {b = c.size} (omega arith),
          ltb-false {a = p} {b = m} (omega arith),
          ltb-false {a = m + s.shared.mmap_block_size} {b = p} (omega arith),
        )
        (ap (λ b. end_check str m b s)
          (agree s.shared.mmap_block_size (add_block (header m prev null c) z)
            (omega
              (arith, all, add_block-covered (header m prev null c) z (omega (arith, all, small))))
            small))
  check_loop-silent (suc k) prev p z c (d ∷ cs) (hd, tl) pos low top room mapped fuel all small =
      rw
        (
          eqb_false {a = p} {b = 0} (omega arith),
          load_block-ok p s (mapped p (omega arith) (omega arith)) hd,
          ltb-false {a = h.max_size} {b = c.size} (omega arith),
          ltb-false {a = p} {b = m} (omega arith),
          ltb-false {a = m + s.shared.mmap_block_size} {b = p} (omega arith),
          eqb_false {a = end_of p c} {b = 0} (omega arith),
          load_block-ok (end_of p c) s (mapped (end_of p c) (omega arith) (omega arith)) tl.0,
          eqb_true {a = p} {b = p} refl,
        )
        (check_loop-silent k p (end_of p c) (add_block (header m prev (end_of p c) c) z) d cs tl
          (omega arith) (omega arith) (omega arith) (omega arith)
          (λ q a b. mapped q (omega arith) (omega arith)) (omega arith)
          (omega (
            arith,
            all,
            add_block-covered (header m prev (end_of p c) c) z (omega (arith, all, small)),
          ))
          small)

-- checkMmapBlock raises no false alarm: on a well-formed MMAP block of the full size, it returns true
-- and does nothing else. It prints no message and dumps no block.
pub check_mmap_block-silent :
    (str : String) (m : Ptr) (h : MmapHeader) (cs : List Cell) (s : State)
    → IsMmap s m h cs
    → h.size ≡ s.shared.mmap_block_size
    → ◌≡◌ {A = Run Bool} (check_mmap_block str m s) (ok true s)
unfolding check_mmap_block
check_mmap_block-silent str m h [] s v full = absurd (omega (arith, v.nonempty))
check_mmap_block-silent str m h (c ∷ cs) s v full =
    rw (load_mmap-ok m s (v.mapped m (omega arith) (omega (arith, v.filled))) v.here) (
      check_loop-silent str m h s (suc s.shared.mmap_block_size) null (m + sizeof_mmap_header)
        no_sizes c cs v.chain (omega arith) (omega arith) (omega (arith, v.filled, full))
        (omega (arith, v.filled, v.max))
        (λ q a b. v.mapped q (omega arith) (omega (arith, v.filled)))
        (omega (arith, length-le-span (c ∷ cs), v.filled, v.within)) (omega (arith, v.filled, full))
        (omega (arith, v.bound)))
