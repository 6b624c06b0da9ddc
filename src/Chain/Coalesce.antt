-- ===== src/Chain/Coalesce.antt =====
-- The joining of a block that vgc_free frees with the free blocks beside it.
use vgc_malloc.Base.{
  ◌+◌, ◌≡◌, refl, ◌<◌, ◌≤◌, ◌⊎◌, Bool, true, false, List, [], ◌∷◌, ◌++◌, arith, inl, inr, ◌∙◌, ap,
  if◌then◌else◌, word_mod, ap_at, add64, eqb_false,
}
use vgc_malloc.Memory.{Ptr, null, State, free, is_free, sizeof_malloc_header}
use vgc_malloc.Memory.Ends
use vgc_malloc.Memory.Ends.{
  Ends, ends, After, After-Same, Same, Same-refl, load_block-ok, store_block-ok,
}
use vgc_malloc.System.{System}
use vgc_malloc.Mprotect.Laws.{munprotect-Same}
use vgc_malloc.Malloc.Block.{free_blocks_prev}
use vgc_malloc.Chain.{Cell, cell, end_of, span, Chain}
use vgc_malloc.Chain.Join.{joined_cell, join_next, Rewritten, join_writes, join-Rewritten}

-- The cells before a block and those from it on, after freeBlocksPrev.
unfoldable pub join_prev : List Cell → List Cell → List Cell
join_prev [] cs = cs
join_prev (w ∷ []) [] = w ∷ []
join_prev (w ∷ []) (c ∷ cs) = if is_free w.status then joined_cell w c ∷ cs else w ∷ c ∷ cs
join_prev (w ∷ x ∷ xs) cs = w ∷ join_prev (x ∷ xs) cs

abbrev pub freed : Cell → Cell
freed c = cell c.size free

-- The cells `xs`, `c` and `ys`, after `c` is freed.
unfoldable pub release_cell : List Cell → Cell → List Cell → List Cell
release_cell xs c ys = join_prev xs (join_next (freed c) ys)

pub join_prev-snoc :
    (ws : List Cell) (w c : Cell) (cs : List Cell)
    → join_prev (ws ++ w ∷ []) (c ∷ cs)
      ≡ ws ++ (if is_free w.status then joined_cell w c ∷ cs else w ∷ c ∷ cs)
unfolding join_prev
join_prev-snoc [] w c cs = refl
join_prev-snoc (x ∷ []) w c cs = refl
join_prev-snoc (x ∷ y ∷ ws) w c cs = ap (λ r. x ∷ r) (join_prev-snoc (y ∷ ws) w c cs)

-- A list is empty or has a last element.
pub snoc_view : (xs : List Cell) → (xs ≡ []) ⊎ ((ws : List Cell) × (w : Cell) × (xs ≡ ws ++ w ∷ []))
snoc_view [] = inl refl
snoc_view (x ∷ xs) = elim (snoc_view xs) [
  | inl e ↦ inr ([], x, ap (λ r. x ∷ r) e)
  | inr (ws, w, e) ↦ inr (x ∷ ws, w, ap (λ r. x ∷ r) e)
]

pub join_next-cons :
    (c : Cell) (ys : List Cell) → (d : Cell) × (zs : List Cell) × (join_next c ys ≡ d ∷ zs)
unfolding join_next
join_next-cons c [] = (c, [], refl)
join_next-cons c (d ∷ ds) = go (is_free d.status) refl
  where
    go :
        (b : Bool)
        → is_free d.status ≡ b
        → (e : Cell) × (zs : List Cell) × ((if is_free d.status
              then joined_cell c d ∷ ds
              else c ∷ d ∷ ds)
            ≡ e ∷ zs)
    go true e = (joined_cell c d, ds, rw e)
    go false e = (c, d ∷ ds, rw e)

module _ (sys : System) (m pv q : Ptr) (s : State) where
  pub free_prev :
      (w c : Cell) (ys : List Cell)
      → Chain s.blocks m pv q (w ∷ c ∷ ys) null
      → 0 < q
      → ((x : Ptr) → q ≤ x → x < q + span (w ∷ c ∷ ys) → s.mapped x ≡ true)
      → q + span (w ∷ c ∷ ys) < word_mod
      → (b : Bool) → is_free w.status ≡ b
      → Ends
          (λ _ t.
            Rewritten s m pv q
              (q + span (w ∷ c ∷ ys))
              (if b then joined_cell w c ∷ ys else w ∷ c ∷ ys)
              t)
          (free_blocks_prev sys (end_of q w) s)
  unfolding free_blocks_prev
  free_prev w c ys ch pos mapped small false e =
      rw
        (
          load_block-ok (end_of q w) s (mapped (end_of q w) (omega arith) (omega arith)) ch.1.0,
          eqb_false {a = q} {b = 0} (omega arith),
          load_block-ok q s (mapped q (omega arith) (omega arith)) ch.0,
          e,
        )
        (ends
          (record { blocks = s.blocks; after = Same-refl s; chain = ch; outside = λ x o. refl }))
  free_prev w c ys ch pos mapped small true e =
      let sz : add64 w.size (add64 c.size sizeof_malloc_header)
          ≡ w.size + (c.size + sizeof_malloc_header) =
        omega arith in
      rw
        (
          load_block-ok (end_of q w) s (mapped (end_of q w) (omega arith) (omega arith)) ch.1.0,
          eqb_false {a = q} {b = 0} (omega arith),
          load_block-ok q s (mapped q (omega arith) (omega arith)) ch.0,
          e,
        )
        (Ends.seq _ (munprotect-Same sys (end_of q w) s) λ _ t same.
          rw
            (
              sz,
              store_block-ok q t _ (ap_at same.mapped q ∙ mapped q (omega arith) (omega arith)),
              join_writes sys m pv q s w c ys t ch same mapped,
            )
            (ends (join-Rewritten sys m pv q s w c ys t ch same)))
