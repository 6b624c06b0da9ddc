-- ===== src/Chain/Dump.antt =====
-- dumpMmapBlock on a well-formed MMAP block.
use vgc_malloc.Base.{
  ℕ, zero, suc, ◌+◌, ◌≡◌, refl, ◌<◌, ◌≤◌, inl, inr, true, false, Option, some, List, [], ◌∷◌, ◌++◌,
  not, arith, length, eqb_false, Bool-cases, if◌then◌else◌, leb,
}
use vgc_malloc.Memory.{Ptr, null, State, MmapHeader, ok, is_free, sizeof_mmap_header}
use vgc_malloc.Memory.Ends.{load_block-ok, load_mmap-ok}
use vgc_malloc.Malloc.Sizes.{Sizes, no_sizes, add_block}
use vgc_malloc.Malloc.Dump.{
  Line, block, totals, Response, Traces, show_trace, put_headings, add_line, add_lines, dump_loop,
  dump_mmap_block, room_of, cut,
}
use vgc_malloc.Chain.{Cell, end_of, link, span, Chain, header}
use vgc_malloc.Chain.Printed.{length-le-span, when-show}
use vgc_malloc.Malloc.Shown.{Framed, show_trace-Shows}
use vgc_malloc.Chain.Mmap.{IsMmap}

module _ (m : Ptr) where
  -- The lines of the blocks of a chain.
  pub cell_lines : ℕ → Ptr → Ptr → List Cell → List Line
  cell_lines i prev p [] = []
  cell_lines i prev p (c ∷ cs) =
      block i p (header m prev (link (end_of p c) cs null) c) ∷ cell_lines (suc i) p (end_of p c) cs

  -- Their sums.
  pub cell_sizes : Ptr → Ptr → List Cell → Sizes → Sizes
  cell_sizes prev p [] z = z
  cell_sizes prev p (c ∷ cs) z =
      cell_sizes p (end_of p c) cs (add_block (header m prev (link (end_of p c) cs null) c) z)

lt_of_leb-false : (a b : ℕ) → leb a b ≡ false → b < a
lt_of_leb-false a b h = ground arith

module _ (width : Line → ℕ) (size : ℕ) where
  add_lines-append :
      (xs ys : List Line) (r : Response)
      → (add_lines width size (xs ++ ys) r).1 ≡ (
          if (add_lines width size xs r).0
          then (add_lines width size ys (add_lines width size xs r).1).1
          else (add_lines width size xs r).1)
  unfolding add_lines
  add_lines-append [] ys r = refl
  add_lines-append (x ∷ xs) ys r = elim (Bool-cases (add_line width size x r).0) [
    | inl e ↦ rw e (add_lines-append xs ys (add_line width size x r).1)
    | inr e ↦ rw e refl
  ]

  -- Lines that are added do not fill the buffer.
  add_line_room :
      (l : Line) (r : Response) → r.used < size → (add_line width size l r).1.used < size
  add_line_room l r small = elim (Bool-cases (leb size (r.used + cut (room_of l) (width l)))) [
    | inl e ↦ rw e small
    | inr e ↦ rw e (lt_of_leb-false size (r.used + cut (room_of l) (width l)) e)
  ]

  pub add_lines_room :
      (ls : List Line) (r : Response) → r.used < size → (add_lines width size ls r).1.used < size
  unfolding add_lines
  add_lines_room [] r small = small
  add_lines_room (l ∷ ls) r small = elim (Bool-cases (add_line width size l r).0) [
    | inl e ↦ rw e (add_lines_room ls (add_line width size l r).1 (add_line_room l r small))
    | inr e ↦ rw e (add_line_room l r small)
  ]

  module _ (tr : Traces) (framed : Framed tr) where
    module _ (m : Ptr) (s : State) where
      dump_loop-null :
          (k i : ℕ) (z : Sizes) (r : Option Response)
          → 0 < k
          → dump_loop width (show_trace tr) k size i null z r s ≡ ok (true, r, z) s
      unfolding dump_loop
      dump_loop-null zero i z r pos = absurd (omega arith)
      dump_loop-null (suc k) i z r pos = refl

      -- The loop adds the lines of the blocks, as far as they have room, and sums up the sizes.
      dump_loop-lines :
          (k i : ℕ) (prev p : Ptr) (cs : List Cell) (z : Sizes) (r : Response)
          → Chain s.blocks m prev p cs null
          → 0 < p
          → ((q : Ptr) → p ≤ q → q < p + span cs → s.mapped q ≡ true)
          → length cs < k
          → 0 < length cs
          → (y : Sizes) × (dump_loop width (show_trace tr) k size i p z (some r) s
              ≡ ok
                  (
                    (add_lines width size (cell_lines m i prev p cs) r).0,
                    some (add_lines width size (cell_lines m i prev p cs) r).1,
                    y,
                  )
                  s)
            × ((add_lines width size (cell_lines m i prev p cs) r).0 ≡ true
                → y ≡ cell_sizes m prev p cs z)
      unfolding dump_loop add_lines cell_lines cell_sizes
      dump_loop-lines zero i prev p cs z r ch pos mapped fuel some_ = absurd (omega arith)
      dump_loop-lines (suc k) i prev p [] z r ch pos mapped fuel some_ = absurd (omega arith)
      dump_loop-lines (suc k) i prev p (c ∷ []) z r (hd, tl) pos mapped fuel some_ =
          rw
            (
              eqb_false {a = p} {b = 0} (omega arith),
              load_block-ok p s (mapped p (omega arith) (omega arith)) hd,
            )
            (elim (Bool-cases (add_line width size (block i p (header m prev null c)) r).0) [
              | inl e ↦
                  rw
                    (
                      e,
                      when-show (show_trace-Shows tr framed) (not (is_free c.status)) p s,
                      dump_loop-null k (suc i) _ _ (omega arith),
                    )
                    (_, refl, λ h. refl)
              | inr e ↦ rw e (_, refl, λ h. absurd (ground (arith, h)))
            ])
      dump_loop-lines (suc k) i prev p (c ∷ d ∷ cs) z r (hd, tl) pos mapped fuel some_ =
          let l = block i p (header m prev (end_of p c) c) in
          rw
            (
              eqb_false {a = p} {b = 0} (omega arith),
              load_block-ok p s (mapped p (omega arith) (omega arith)) hd,
            )
            (elim (Bool-cases (add_line width size l r).0) [
              | inl e ↦
                  rw (e, when-show (show_trace-Shows tr framed) (not (is_free c.status)) p s)
                    (dump_loop-lines k (suc i) p (end_of p c) (d ∷ cs) _ (add_line width size l r).1
                      tl (omega arith) (λ q a b. mapped q (omega arith) (omega arith)) (omega arith)
                      (omega arith))
              | inr e ↦ rw e (_, refl, λ h. absurd (ground (arith, h)))
            ])

    -- dumpMmapBlock with a buffer of the caller, on a well-formed MMAP block, where the three headings
    -- have room in the buffer, the frames of backtrace_symbols have their brackets, and addr2line
    -- prints a line for each command: it ends without a fault and changes nothing else, adds the
    -- headings, a line for each block in the order of the chain, and the totals, up to the first line
    -- that has no room, and leaves room for the terminator.
    pub dump_mmap_block-lines :
        (m : Ptr) (h : MmapHeader) (cs : List Cell) (s : State) (r : Response)
        → IsMmap s m h cs
        → (put_headings width m h.max_size r).used < size
        → let start = put_headings width m h.max_size r in
          let ls =
            cell_lines m 0 null (m + sizeof_mmap_header) cs
            ++ totals s.shared.mmap_block_size
                (cell_sizes m null (m + sizeof_mmap_header) cs no_sizes) in
          (dump_mmap_block width (show_trace tr) (some r) size m s
            ≡ ok (some (add_lines width size ls start).1) s)
          × ((add_lines width size ls start).1.used < size)
    unfolding dump_mmap_block
    dump_mmap_block-lines m h cs s r v small =
        let start = put_headings width m h.max_size r in
        let xs = cell_lines m 0 null (m + sizeof_mmap_header) cs in
        let z = cell_sizes m null (m + sizeof_mmap_header) cs no_sizes in
        let (y, ran, sums) =
          dump_loop-lines m s (suc s.shared.mmap_block_size) 0 null (m + sizeof_mmap_header) cs
            no_sizes start v.chain (omega arith)
            (λ q a b. v.mapped q (omega arith) (omega (arith, v.filled)))
            (omega (arith, length-le-span cs, v.filled, v.within)) v.nonempty in
        (
          rw
              (
                eqb_false {a = m} {b = 0} (omega (arith, v.base)),
                load_mmap-ok m s (v.mapped m (omega arith) (omega (arith, v.filled))) v.here,
                ran,
                add_lines-append xs (totals s.shared.mmap_block_size z) start,
              )
              (elim (Bool-cases (add_lines width size xs start).0) [
                | inl e ↦ rw (e, sums e) refl
                | inr e ↦ rw e refl
              ]),
          add_lines_room _ start small,
        )
