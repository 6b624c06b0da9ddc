-- ===== src/Chain/Printed.antt =====
-- dumpMmapBlock ends on the headers of an MMAP block, with or without a buffer.
use vgc_malloc.Base.{
  ℕ, zero, suc, ◌+◌, ◌≡◌, refl, ◌<◌, ◌≤◌, inl, inr, Bool, true, false, not, none, Option, List, [],
  ◌∷◌, arith, length, eqb_false, Bool-cases,
}
use vgc_malloc.Memory.{Ptr, null, State, M, ok, when, is_free, MmapHeader, sizeof_mmap_header}
use vgc_malloc.Memory.Ends.{load_block-ok, load_mmap-ok}
use vgc_malloc.Malloc.Sizes.{Sizes, no_sizes}
use vgc_malloc.Malloc.Dump.{
  Line, block, Response, start_response, add_to, dump_loop, dump_mmap_block, dump_printed, quiet,
}
use vgc_malloc.Malloc.Shown.{Shows}
use vgc_malloc.Chain.{Cell, end_of, span, Chain, header}
use vgc_malloc.Chain.Mmap.{IsLaid}

pub length-le-span : (cs : List Cell) → length cs ≤ span cs
length-le-span [] = omega arith
length-le-span (c ∷ cs) = omega (arith, length-le-span cs)

pub when-show :
    {show : Ptr → M (Unit {0})} (shows : Shows show) (b : Bool) (p : Ptr) (s : State)
    → when b (show p) s ≡ ok tt s
when-show shows true p s = shows p s
when-show shows false p s = refl

module _ (width : Line → ℕ) (size : ℕ) (show : Ptr → M (Unit {0})) (shows : Shows show) where
  -- With or without a buffer, with or without room in it.
  dump_loop_total :
      (m : Ptr) (s : State) (k i : ℕ) (prev p : Ptr) (cs : List Cell) (z : Sizes)
      (r : Option Response)
      → Chain s.blocks m prev p cs null
      → 0 < p
      → ((q : Ptr) → p ≤ q → q < p + span cs → s.mapped q ≡ true)
      → length cs < k
      → 0 < length cs
      → (x : Bool × Option Response × Sizes) × (dump_loop width show k size i p z r s ≡ ok x s)
  unfolding dump_loop
  dump_loop_total m s zero i prev p cs z r ch pos mapped fuel some_ = absurd (omega arith)
  dump_loop_total m s (suc k) i prev p [] z r ch pos mapped fuel some_ = absurd (omega arith)
  dump_loop_total m s (suc zero) i prev p (c ∷ cs) z r ch pos mapped fuel some_ =
      absurd (omega arith)
  dump_loop_total m s (suc (suc k)) i prev p (c ∷ []) z r (hd, tl) pos mapped fuel some_ =
      rw
        (
          eqb_false {a = p} {b = 0} (omega arith),
          load_block-ok p s (mapped p (omega arith) (omega arith)) hd,
        )
        (elim (Bool-cases (add_to width size (block i p (header m prev null c) ∷ []) r).0) [
          | inl e ↦ rw (e, when-show shows (not (is_free c.status)) p s) (_, refl)
          | inr e ↦ rw e (_, refl)
        ])
  dump_loop_total m s (suc (suc k)) i prev p (c ∷ d ∷ cs) z r (hd, tl) pos mapped fuel some_ =
      let l = block i p (header m prev (end_of p c) c) in
      rw
        (
          eqb_false {a = p} {b = 0} (omega arith),
          load_block-ok p s (mapped p (omega arith) (omega arith)) hd,
        )
        (elim (Bool-cases (add_to width size (l ∷ []) r).0) [
          | inl e ↦
              rw (e, when-show shows (not (is_free c.status)) p s)
                (dump_loop_total m s (suc k) (suc i) p (end_of p c) (d ∷ cs) _ _ tl (omega arith)
                  (λ q a b. mapped q (omega arith) (omega arith)) (omega arith) (omega arith))
          | inr e ↦ rw e (_, refl)
        ])

  pub dump_mmap_block_total :
      (m : Ptr) (h : MmapHeader) (cs : List Cell) (s : State) (r : Option Response)
      → IsLaid s m h cs
      → (r' : Option Response) × (dump_mmap_block width show r size m s ≡ ok r' s)
  unfolding dump_mmap_block
  dump_mmap_block_total m h cs s r v =
      let (x, ran) =
        dump_loop_total m s (suc s.shared.mmap_block_size) 0 null (m + sizeof_mmap_header) cs
          no_sizes (start_response width m h.max_size r) v.chain (omega arith)
          (λ q a b. v.mapped q (omega arith) (omega (arith, v.filled)))
          (omega (arith, length-le-span cs, v.filled, v.within)) v.nonempty in
      rw
        (
          eqb_false {a = m} {b = 0} (omega (arith, v.base)),
          load_mmap-ok m s (v.mapped m (omega arith) (omega (arith, v.filled))) v.here,
          ran,
        )
        (elim (Bool-cases x.0) [ inl e ↦ rw e (_, refl) | inr e ↦ rw e (_, refl) ])

pub dump_printed-Same :
    (m : Ptr) (h : MmapHeader) (cs : List Cell) (s : State)
    → IsLaid s m h cs
    → dump_printed m s ≡ ok tt s
unfolding dump_printed
dump_printed-Same m h cs s v =
    let (r, ran) = dump_mmap_block_total (λ _. 0) 0 quiet (λ p t. refl) m h cs s none v in
    rw ran refl
