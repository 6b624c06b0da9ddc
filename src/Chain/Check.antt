-- ===== src/Chain/Check.antt =====
-- checkMmapBlock on a well-formed MMAP block.
use vgc_malloc.Base.{
  ℕ, zero, suc, ◌+◌, ◌≡◌, refl, ◌<◌, ◌≤◌, Bool, true, false, List, [], ◌∷◌, arith, String, length,
  eqb_false, eqb_true, ltb-false, ap, ap_at, sym, ◌∙◌,
}
use mathlib.Core.Path.{subst}
use vgc_malloc.Errno.{message}
use vgc_malloc.Memory.{Ptr, null, State, MmapHeader, ok, sizeof_malloc_header, sizeof_mmap_header}
use vgc_malloc.Memory.Ends.{Ends, ends, Same, Same-refl, Same-log, load_block-ok, load_mmap-ok}
use vgc_malloc.Malloc.Check.{end_check, totals_agree, check_loop, check_mmap_block}
use vgc_malloc.Malloc.Sizes.{Sizes, no_sizes, add_block}
use vgc_malloc.Malloc.Dump.{dump_printed}
use vgc_malloc.Chain.Printed.{length-le-span, dump_printed-Same}
use vgc_malloc.Chain.{Cell, end_of, span, Chain, header}
use vgc_malloc.Chain.Mmap.{IsMmap, IsLaid, IsMmap-IsLaid}

end_check-Same :
    (str : String) (m : Ptr) (b : Bool) (s : State)
    → ((t : State) → Same s t → dump_printed m t ≡ ok tt t)
    → Ends (λ a t. (a ≡ true) × Same s t) (end_check str m b s)
end_check-Same str m true s dump = ends (refl, Same-refl s)
end_check-Same str m false s dump =
    rw
      (dump (record s { log = message str "Found inconsistent MMAP" "Error" ∷ s.log })
        (Same-log _ s))
      (ends (refl, Same-log _ s))

module _ (str : String) (m : Ptr) (h : MmapHeader) (s : State)
    (dump : (t : State) → Same s t → dump_printed m t ≡ ok tt t) where
  check_loop-Same :
      (k : ℕ) (prev p : Ptr) (z : Sizes) (c : Cell) (cs : List Cell)
      → Chain s.blocks m prev p (c ∷ cs) null
      → 0 < p
      → m ≤ p
      → p + span (c ∷ cs) ≤ m + s.shared.mmap_block_size
      → span (c ∷ cs) ≤ h.max_size + sizeof_malloc_header
      → ((q : Ptr) → p ≤ q → q < p + span (c ∷ cs) → s.mapped q ≡ true)
      → length (c ∷ cs) < k
      → Ends (λ a t. (a ≡ true) × Same s t) (check_loop str k m h p z s)
  unfolding check_loop
  check_loop-Same zero prev p z c cs ch pos low top room mapped fuel = absurd (omega arith)
  check_loop-Same (suc k) prev p z c [] (hd, tl) pos low top room mapped fuel =
      rw
        (
          eqb_false {a = p} {b = 0} (omega arith),
          load_block-ok p s (mapped p (omega arith) (omega arith)) hd,
          ltb-false {a = h.max_size} {b = c.size} (omega arith),
          ltb-false {a = p} {b = m} (omega arith),
          ltb-false {a = m + s.shared.mmap_block_size} {b = p} (omega arith),
        )
        (end_check-Same str m
          (totals_agree s.shared.mmap_block_size (add_block (header m prev null c) z)) s dump)
  check_loop-Same (suc k) prev p z c (d ∷ cs) (hd, tl) pos low top room mapped fuel =
      rw
        (
          eqb_false {a = p} {b = 0} (omega arith),
          load_block-ok p s (mapped p (omega arith) (omega arith)) hd,
          ltb-false {a = h.max_size} {b = c.size} (omega arith),
          ltb-false {a = p} {b = m} (omega arith),
          ltb-false {a = m + s.shared.mmap_block_size} {b = p} (omega arith),
          eqb_false {a = end_of p c} {b = 0} (omega arith),
          load_block-ok (end_of p c) s (mapped (end_of p c) (omega arith) (omega arith)) tl.0,
          eqb_true {a = p} {b = p} refl,
        )
        (check_loop-Same k p (end_of p c) (add_block (header m prev (end_of p c) c) z) d cs tl
          (omega arith) (omega arith) (omega arith) (omega arith)
          (λ q a b. mapped q (omega arith) (omega arith)) (omega arith))

IsLaid-Same :
    {s t : State} {m : Ptr} {h : MmapHeader} {cs : List Cell}
    → Same s t
    → IsLaid s m h cs
    → IsLaid t m h cs
IsLaid-Same {m} {cs} same v = record {
  base = v.base;
  here = ap_at same.mmaps m ∙ v.here;
  chain = subst (λ bl. Chain bl m null (m + sizeof_mmap_header) cs null) (sym same.blocks) v.chain;
  nonempty = v.nonempty;
  filled = v.filled;
  max = v.max;
  within = omega (arith, v.within, ap (λ x. x.mmap_block_size) same.shared);
  mapped = λ q lo hi. ap_at same.mapped q ∙ v.mapped q lo hi;
}

module _ (str : String) {m : Ptr} {h : MmapHeader} {s : State} where
  check_first :
      (cs : List Cell)
      → IsLaid s m h cs
      → Ends
          (λ a t. (a ≡ true) × Same s t)
          (check_loop str (suc s.shared.mmap_block_size) m h (m + sizeof_mmap_header) no_sizes s)
  check_first [] v = absurd (omega (arith, v.nonempty))
  check_first (c ∷ cs) v =
      check_loop-Same str m h s (λ t same. dump_printed-Same m h (c ∷ cs) t (IsLaid-Same same v))
        (suc s.shared.mmap_block_size) null (m + sizeof_mmap_header) no_sizes c cs v.chain
        (omega arith) (omega arith) (omega arith) (omega arith)
        (λ q a b. v.mapped q (omega arith) (omega arith)) (omega (arith, length-le-span (c ∷ cs)))

  pub check_laid-Same :
      (cs : List Cell)
      → IsLaid s m h cs
      → Ends (λ a t. (a ≡ true) × Same s t) (check_mmap_block str m s)
  unfolding check_mmap_block
  check_laid-Same cs v =
      rw (load_mmap-ok m s (v.mapped m (omega arith) (omega arith)) v.here) (check_first cs v)

  -- checkMmapBlock on a well-formed MMAP block ends without a fault, returns true, and changes neither the
  -- shared data, the mapping, the bytes nor a header. It may report an inconsistent total and dump
  -- the block.
  pub check_mmap_block-Same :
      (cs : List Cell)
      → IsMmap s m h cs
      → Ends (λ a t. (a ≡ true) × Same s t) (check_mmap_block str m s)
  check_mmap_block-Same cs v = check_laid-Same cs (IsMmap-IsLaid v)
