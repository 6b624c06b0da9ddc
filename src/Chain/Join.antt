-- ===== src/Chain/Join.antt =====
-- freeBlocksNext on a chain, and the joining of two neighbours that it shares with freeBlocksPrev.
use vgc_malloc.Base.{
  ◌+◌, ◌≡◌, refl, ◌<◌, ◌≤◌, ◌⊎◌, Bool, true, false, some, List, [], ◌∷◌, arith, inl, inr, ◌∙◌,
  if◌then◌else◌, word_mod, ap_at, add64, eqb_false,
}
use vgc_malloc.Memory.{Ptr, null, State, Run, ok, update, is_free, sizeof_malloc_header}
use vgc_malloc.Memory.Ends
use vgc_malloc.Memory.Ends.{Ends, ends, After, Same, Same-refl, load_block-ok, store_block-ok}
use vgc_malloc.System.{System}
use vgc_malloc.Mprotect.Laws.{munprotect-Same}
use vgc_malloc.Malloc.Block.{free_blocks_next, set_prev}
use vgc_malloc.Chain.{Cell, cell, Blocks, header, end_of, span, link, Chain}
use vgc_malloc.Chain.Frame.{frame}
use vgc_malloc.Chain.Patch.{
  update_at, update_off, relinked, relinked_off, relinked-Chain, set_prev-relinked,
}

-- Two neighbours become one block.
abbrev pub joined_cell : Cell → Cell → Cell
joined_cell a b = cell (a.size + (b.size + sizeof_malloc_header)) a.status

-- The cell and those behind it, after freeBlocksNext.
unfoldable pub join_next : Cell → List Cell → List Cell
join_next c [] = c ∷ []
join_next c (d ∷ ds) = if is_free d.status then joined_cell c d ∷ ds else c ∷ d ∷ ds

-- The headers after a join.
abbrev pub joined : Blocks → Ptr → Ptr → Ptr → Cell → Cell → List Cell → Blocks
joined f m pv q a b ys =
    let e = end_of (end_of q a) b in
    relinked (update f q (some (header m pv (link e ys null) (joined_cell a b)))) m q e ys

module _ (f : Blocks) (m pv q : Ptr) (a b : Cell) (ys : List Cell) where
  pub joined-Chain :
      Chain f m pv q (a ∷ b ∷ ys) null
      → Chain (joined f m pv q a b ys) m pv q (joined_cell a b ∷ ys) null
  joined-Chain (h, (h', hs)) =
      let e : Ptr = end_of (end_of q a) b in
      let e' : end_of q (joined_cell a b) ≡ e = omega arith in
      let new = header m pv (link e ys null) (joined_cell a b) in
      rw e' (
        relinked_off (update f q (some new)) m q e ys (inl (omega arith)) ∙ update_at f q _ refl,
        relinked-Chain (update f q (some new)) m q (end_of q a) e ys (
            frame f (update f q (some new)) m (end_of q a) e ys null hs
              λ x lo hi. update_off f q _ (omega arith)),
      )

  pub joined_off :
      (x : Ptr) → (x < q) ⊎ (end_of (end_of q a) b + span ys ≤ x) → joined f m pv q a b ys x ≡ f x
  joined_off x o =
      relinked_off
        (update f q (some (header m pv (link (end_of (end_of q a) b) ys null) (joined_cell a b)))) m
        q (end_of (end_of q a) b) ys (elim o [ inl l ↦ inl (omega arith) | inr l ↦ inr l ])
      ∙ update_off f q _ (omega arith)

-- The final state where the headers from `q` up to `hi` now form a chain of `cells`.
pub record Rewritten (s : State) (m pv q hi : Ptr) (cells : List Cell) (t : State) : Type 0 where
  pub blocks : Blocks
  pub after : After s s.mmaps blocks t
  pub chain : Chain blocks m pv q cells null
  pub outside : (x : Ptr) → (x < q) ⊎ (hi ≤ x) → blocks x ≡ s.blocks x

module _ (sys : System) (m pv q : Ptr) (s : State) where
  -- The two writes of a join, after the guard of the second block was lifted.
  pub join_writes :
      (a b : Cell) (ys : List Cell) (t : State)
      → Chain s.blocks m pv q (a ∷ b ∷ ys) null
      → Same s t
      → ((x : Ptr) → q ≤ x → x < q + span (a ∷ b ∷ ys) → s.mapped x ≡ true)
      → ◌≡◌ {A = Run (Unit {0})}
          (set_prev (link (end_of (end_of q a) b) ys null) q (record t {
            blocks =
                update t.blocks q
                  (some (header m pv (link (end_of (end_of q a) b) ys null) (joined_cell a b)));
          }))
          (ok tt (record t { blocks = joined t.blocks m pv q a b ys }))
  join_writes a b ys t (h, (h', hs)) same mapped =
      let e : Ptr = end_of (end_of q a) b in
      let f = update t.blocks q (some (header m pv (link e ys null) (joined_cell a b))) in
      set_prev-relinked (record t { blocks = f }) m q (end_of q a) e ys
        (frame s.blocks f m (end_of q a) e ys null hs
          λ x lo hi. update_off t.blocks q _ (omega arith) ∙ ap_at same.blocks x)
        (omega arith) (λ x lo hi. ap_at same.mapped x ∙ mapped x (omega arith) (omega arith))

  pub join-Rewritten :
      (a b : Cell) (ys : List Cell) (t : State)
      → Chain s.blocks m pv q (a ∷ b ∷ ys) null
      → Same s t
      → Rewritten s m pv q
          (q + span (a ∷ b ∷ ys))
          (joined_cell a b ∷ ys)
          (record t { blocks = joined t.blocks m pv q a b ys })
  join-Rewritten a b ys t ch same = record {
    blocks = joined t.blocks m pv q a b ys;
    after = record {
      shared = same.shared;
      mapped = same.mapped;
      bytes = same.bytes;
      mmaps = same.mmaps;
      blocks = refl;
    };
    chain =
        joined-Chain t.blocks m pv q a b ys
          (frame s.blocks t.blocks m pv q (a ∷ b ∷ ys) null ch λ x lo hi. ap_at same.blocks x);
    outside = λ x o.
        joined_off t.blocks m pv q a b ys x (elim o [ inl l ↦ inl l | inr l ↦ inr (omega arith) ])
        ∙ ap_at same.blocks x;
  }

  free_next :
      (c d : Cell) (ds : List Cell)
      → Chain s.blocks m pv q (c ∷ d ∷ ds) null
      → ((x : Ptr) → q ≤ x → x < q + span (c ∷ d ∷ ds) → s.mapped x ≡ true)
      → q + span (c ∷ d ∷ ds) < word_mod
      → (b : Bool) → is_free d.status ≡ b
      → Ends
          (λ _ t.
            Rewritten s m pv q
              (q + span (c ∷ d ∷ ds))
              (if b then joined_cell c d ∷ ds else c ∷ d ∷ ds)
              t)
          (free_blocks_next sys q s)
  unfolding free_blocks_next
  free_next c d ds ch mapped small false e =
      rw
        (
          load_block-ok q s (mapped q (omega arith) (omega arith)) ch.0,
          eqb_false {a = end_of q c} {b = 0} (omega arith),
          load_block-ok (end_of q c) s (mapped (end_of q c) (omega arith) (omega arith)) ch.1.0,
          e,
        )
        (ends
          (record { blocks = s.blocks; after = Same-refl s; chain = ch; outside = λ x o. refl }))
  free_next c d ds ch mapped small true e =
      let sz : add64 c.size (add64 d.size sizeof_malloc_header)
          ≡ c.size + (d.size + sizeof_malloc_header) =
        omega arith in
      rw
        (
          load_block-ok q s (mapped q (omega arith) (omega arith)) ch.0,
          eqb_false {a = end_of q c} {b = 0} (omega arith),
          load_block-ok (end_of q c) s (mapped (end_of q c) (omega arith) (omega arith)) ch.1.0,
          e,
        )
        (Ends.seq _ (munprotect-Same sys (end_of q c) s) λ _ t same.
          rw
            (
              sz,
              store_block-ok q t _ (ap_at same.mapped q ∙ mapped q (omega arith) (omega arith)),
              join_writes c d ds t ch same mapped,
            )
            (ends (join-Rewritten c d ds t ch same)))

  pub free_blocks_next-Rewritten :
      (c : Cell) (ys : List Cell)
      → Chain s.blocks m pv q (c ∷ ys) null
      → ((x : Ptr) → q ≤ x → x < q + span (c ∷ ys) → s.mapped x ≡ true)
      → q + span (c ∷ ys) < word_mod
      → Ends
          (λ _ t. Rewritten s m pv q (q + span (c ∷ ys)) (join_next c ys) t)
          (free_blocks_next sys q s)
  unfolding free_blocks_next join_next
  free_blocks_next-Rewritten c [] ch mapped small =
      rw (load_block-ok q s (mapped q (omega arith) (omega arith)) ch.0) (
        ends (record { blocks = s.blocks; after = Same-refl s; chain = ch; outside = λ x o. refl }))
  free_blocks_next-Rewritten c (d ∷ ds) ch mapped small =
      free_next c d ds ch mapped small (is_free d.status) refl
