-- ===== src/Chain/Take.antt =====
-- take_block of allocMallocBlock: a free block of a chain becomes busy.
use vgc_malloc.Base.{ℕ, ◌+◌, ◌≡◌, ◌<◌, ◌≤◌, true, some, List, [], ◌∷◌, arith, eqb_false, add64, ◌∙◌}
use vgc_malloc.Memory.{Ptr, null, MmapHeader, MallocHeader, State, ok, update, busy}
use vgc_malloc.Memory.Ends.{load_block-ok, store_block-ok, load_mmap-ok, store_mmap-ok}
use vgc_malloc.System.{System}
use vgc_malloc.Malloc.Block.{take_block}
use vgc_malloc.Chain.{Cell, cell, Blocks, header, end_of, span, link, Chain}
use vgc_malloc.Chain.Frame.{frame}
use vgc_malloc.Chain.Patch.{update_off, relinked, set_prev-relinked}

abbrev pub one_more : MmapHeader → MmapHeader
one_more h = record h { elements = add64 h.elements 1 }

-- The headers after take_block, with the cells `rs` behind the block, from `e` on.
unfoldable pub taken : Blocks → Ptr → Ptr → Ptr → ℕ → Ptr → List Cell → Blocks
taken f m pv q len e [] = update f q (some (header m pv null (cell len busy)))
taken f m pv q len e (r ∷ rs) =
    relinked (update f q (some (header m pv e (cell len busy)))) m e (end_of e r) rs

-- The cells behind a block: the first is linked to the block, and the others are a chain.
abbrev pub Behind : Blocks → Ptr → Ptr → Ptr → List Cell → Type 0
Behind f m q e [] = Unit {0}
Behind f m q e (r ∷ rs) =
    (f e ≡ some (header m q (link (end_of e r) rs null) r))
    × ((pv : Ptr) × Chain f m pv (end_of e r) rs null)

pub Chain-Behind :
    (f : Blocks) (m q e : Ptr) (cs : List Cell) → Chain f m q e cs null → Behind f m q e cs
Chain-Behind f m q e [] h = tt
Chain-Behind f m q e (c ∷ cs) (h, hs) = (h, (e, hs))

module _ (sys : System) (m q len e : ℕ) (t : State) {h : MmapHeader} {b : MallocHeader} where
  pub take_block-taken :
      (rs : List Cell)
      → t.mapped m ≡ true
      → t.mmaps m ≡ some h
      → t.mapped q ≡ true
      → t.blocks q ≡ some b
      → q < e
      → Behind t.blocks m q e rs
      → ((a : Ptr) → e ≤ a → a < e + span rs → t.mapped a ≡ true)
      → take_block sys m q len (link e rs null) t
        ≡ ok tt (record t {
          mmaps = update t.mmaps m (some (one_more h));
          blocks = taken t.blocks m b.prev q len e rs;
        })
  unfolding take_block taken
  take_block-taken [] mm hh mq bq lt ch mapped = rw (
    load_mmap-ok m t mm hh,
    store_mmap-ok m t (one_more h) mm,
    load_block-ok q (record t { mmaps = update t.mmaps m (some (one_more h)) }) mq bq,
    store_block-ok q (record t { mmaps = update t.mmaps m (some (one_more h)) })
        (header m b.prev null (cell len busy)) mq,
  )
  take_block-taken (r ∷ rs) mm hh mq bq lt (re, (pv, rest)) mapped =
      let u : State = record t { mmaps = update t.mmaps m (some (one_more h)) } in
      let new = header m b.prev e (cell len busy) in
      let w : State = record u { blocks = update t.blocks q (some new) } in
      rw (
        load_mmap-ok m t mm hh,
        store_mmap-ok m t (one_more h) mm,
        load_block-ok q u mq bq,
        store_block-ok q u new mq,
        eqb_false {a = e} {b = 0} (omega arith),
        load_block-ok e w (mapped e (omega arith) (omega arith))
            (update_off t.blocks q (some new) {q = e} (omega arith) ∙ re),
        set_prev-relinked w m e pv (end_of e r) rs
            (frame t.blocks w.blocks m pv (end_of e r) rs null rest
              λ a x y. update_off t.blocks q (some new) (omega arith))
            (omega arith) (λ a x y. mapped a (omega arith) (omega arith)),
      )
