-- ===== src/Chain/Free.antt =====
-- `coalesce` of vgc_free on the whole chain of an MMAP block.
use vgc_malloc.Base.{
  ◌+◌, ◌≡◌, refl, ◌<◌, ◌≤◌, Bool, true, false, some, List, [], ◌∷◌, ◌++◌, arith, inl, inr, ◌∙◌, sym,
  ap, if◌then◌else◌, word_mod, ap_at, length,
}
use mathlib.Core.Path.{subst}
use mathlib.Core.List.{append_assoc}
use vgc_malloc.Memory.{Ptr, null, State, update, is_free}
use vgc_malloc.Memory.Ends
use vgc_malloc.Memory.Ends.{
  Ends, ends, After, After-Same, Same, Same-refl, load_block-ok, store_block-ok,
}
use vgc_malloc.System.{System}
use vgc_malloc.Mprotect.Laws.{munprotect-Same}
use vgc_malloc.Malloc.Block.{free_blocks_next, free_blocks_prev}
use vgc_malloc.Malloc.Release.{coalesce}
use vgc_malloc.Chain.{Cell, header, end_of, span, link, Chain, last}
use vgc_malloc.Chain.Frame.{frame, Chain-split, span-append}
use vgc_malloc.Chain.Patch.{patch, patch_cells, update_at, update_off}
use vgc_malloc.Chain.Join.{joined_cell, join_next, Rewritten, free_blocks_next-Rewritten}
use vgc_malloc.Chain.Coalesce.{
  join_prev, freed, release_cell, join_prev-snoc, snoc_view, join_next-cons, free_prev,
}

-- Two rewritings of the same headers, one after the other.
Rewritten-trans :
    {s t u : State} {m pv q hi : Ptr} {cs ds : List Cell}
    → Rewritten s m pv q hi cs t
    → Rewritten t m pv q hi ds u
    → Rewritten s m pv q hi ds u
Rewritten-trans a b = record {
  blocks = b.blocks;
  after = record {
    shared = b.after.shared ∙ a.after.shared;
    mapped = b.after.mapped ∙ a.after.mapped;
    bytes = b.after.bytes ∙ a.after.bytes;
    mmaps = b.after.mmaps ∙ a.after.mmaps;
    blocks = b.after.blocks;
  };
  chain = b.chain;
  outside = λ x o. b.outside x o ∙ (ap_at a.after.blocks x ∙ a.outside x o);
}

pub Chain-in :
    {s t : State} {m pv q hi : Ptr} {cs : List Cell}
    → Rewritten s m pv q hi cs t
    → Chain t.blocks m pv q cs null
Chain-in {t} {m} {pv} {q} {cs} r =
    frame r.blocks t.blocks m pv q cs null r.chain λ x lo hi. ap_at r.after.blocks x

-- A rewriting of the last cells of a chain, seen from its start.
widen :
    {s t : State} {m p q hi : Ptr} (xs : List Cell) (c : Cell) (ys cs : List Cell)
    → 0 < length cs
    → q ≡ p + span xs
    → Chain s.blocks m null p (xs ++ c ∷ ys) null
    → Rewritten s m (last null p xs) q hi cs t
    → Rewritten s m null p hi (xs ++ cs) t
widen {s} {m} {p} {q} xs c ys cs n e ch r = record {
  blocks = r.blocks;
  after = r.after;
  chain =
      patch_cells s.blocks r.blocks m p q xs c ys cs n e ch (λ a lt. r.outside a (inl lt)) r.chain;
  outside = λ x o. r.outside x (elim o [ inl l ↦ inl (omega arith) | inr l ↦ inr l ]);
}

if_length :
    (b : Bool) (w c : Cell) (ys : List Cell)
    → 0 < length (if b then joined_cell w c ∷ ys else w ∷ c ∷ ys)
if_length true w c ys = omega arith
if_length false w c ys = omega arith

module _ (sys : System) (m p : Ptr) (s : State) where
  -- freeBlocksPrev on the block at `q`, with the cells `xs` before it.
  abbrev PrevAt : List Cell → Cell → List Cell → Ptr → Type 0
  PrevAt xs c ys q =
      q ≡ p + span xs
      → Chain s.blocks m null p (xs ++ c ∷ ys) null
      → 0 < p
      → ((x : Ptr) → p ≤ x → x < p + span (xs ++ c ∷ ys) → s.mapped x ≡ true)
      → p + span (xs ++ c ∷ ys) < word_mod
      → Ends (λ _ t. Rewritten s m null p (p + span (xs ++ c ∷ ys)) (join_prev xs (c ∷ ys)) t)
          (free_blocks_prev sys q s)

  prev_first : (c : Cell) (ys : List Cell) (q : Ptr) → PrevAt [] c ys q
  unfolding free_blocks_prev join_prev
  prev_first c ys q e ch pos mapped small =
      let e' : q ≡ p = omega arith in
      rw (e', load_block-ok p s (mapped p (omega arith) (omega arith)) ch.0)
        (ends
          (record { blocks = s.blocks; after = Same-refl s; chain = ch; outside = λ x o. refl }))

  prev_snoc :
      (ws : List Cell) (w c : Cell) (ys : List Cell) (q : Ptr) → PrevAt (ws ++ w ∷ []) c ys q
  prev_snoc ws w c ys q e ch pos mapped small =
      let r : Ptr = p + span ws in
      let q' : q ≡ end_of r w = omega (arith, span-append ws (w ∷ [])) in
      let flat = append_assoc ws (w ∷ []) (c ∷ ys) in
      let total : p + span ((ws ++ w ∷ []) ++ c ∷ ys) ≡ r + span (w ∷ c ∷ ys) =
        omega (arith, ap span flat, span-append ws (w ∷ c ∷ ys)) in
      let ch' : Chain s.blocks m null p (ws ++ w ∷ c ∷ ys) null = rw flat at ch in
      let (front, back) = Chain-split s.blocks m null w (c ∷ ys) null p r ws refl ch' in
      rw (q', total, join_prev-snoc ws w c ys)
        (Ends.weaken
          (free_prev sys m (last null p ws) r s w c ys back (omega arith)
            (λ x lo hi. mapped x (omega arith) (omega (arith, total))) (omega (arith, total))
            (is_free w.status) refl)
          λ _ t k. widen ws w (c ∷ ys) _ (if_length (is_free w.status) w c ys) refl ch' k)

  pub prev_at : (xs : List Cell) (c : Cell) (ys : List Cell) (q : Ptr) → PrevAt xs c ys q
  prev_at xs c ys q = elim (snoc_view xs) [
    | inl e ↦ subst (λ zs. PrevAt zs c ys q) (sym e) (prev_first c ys q)
    | inr (ws, w, e) ↦ subst (λ zs. PrevAt zs c ys q) (sym e) (prev_snoc ws w c ys q)
  ]

  -- Marking the block free and lifting its guard.
  mark_free :
      (xs : List Cell) (c : Cell) (ys : List Cell) (q : Ptr) (t : State)
      → q ≡ p + span xs
      → Chain s.blocks m null p (xs ++ c ∷ ys) null
      → After s s.mmaps
          (update s.blocks q
            (some (header m (last null p xs) (link (end_of q c) ys null) (freed c))))
          t
      → Rewritten s m null p (p + span (xs ++ c ∷ ys)) (xs ++ freed c ∷ ys) t
  mark_free xs c ys q t e ch at =
      let new = header m (last null p xs) (link (end_of q c) ys null) (freed c) in
      let part = (Chain-split s.blocks m null c ys null p q xs e ch).1 in
      record {
        blocks = update s.blocks q (some new);
        after = at;
        chain =
            patch s.blocks (update s.blocks q (some new)) m p q xs c ys (freed c) ys e ch
              (λ a lt. update_off s.blocks q _ (omega arith))
              (
                update_at s.blocks q _ refl,
                frame s.blocks (update s.blocks q (some new)) m q (end_of q c) ys null part.1
                    λ x lo hi. update_off s.blocks q _ (omega arith),
              );
        outside = λ x o. update_off s.blocks q _ (omega (arith, span-append xs (c ∷ ys)));
      }

  -- freeBlocksNext on the block at `q`.
  next_at :
      (xs : List Cell) (c : Cell) (ys : List Cell) (q : Ptr)
      → q ≡ p + span xs
      → Chain s.blocks m null p (xs ++ c ∷ ys) null
      → ((x : Ptr) → p ≤ x → x < p + span (xs ++ c ∷ ys) → s.mapped x ≡ true)
      → p + span (xs ++ c ∷ ys) < word_mod
      → Ends
          (λ _ t. Rewritten s m null p (p + span (xs ++ c ∷ ys)) (xs ++ join_next c ys) t)
          (free_blocks_next sys q s)
  next_at xs c ys q e ch mapped small =
      let total : p + span (xs ++ c ∷ ys) ≡ q + span (c ∷ ys) =
        omega (arith, span-append xs (c ∷ ys)) in
      let (d, zs, j) = join_next-cons c ys in
      rw total (
        Ends.weaken
          (free_blocks_next-Rewritten sys m (last null p xs) q s c ys
            (Chain-split s.blocks m null c ys null p q xs e ch).1
            (λ x lo hi. mapped x (omega arith) (omega (arith, total))) (omega (arith, total)))
          λ _ t k. widen xs c ys (join_next c ys) (rw j (omega arith)) e ch k)

join_next-span : (c : Cell) (ys : List Cell) → span (join_next c ys) ≡ span (c ∷ ys)
unfolding join_next
join_next-span c [] = refl
join_next-span c (d ∷ ds) = ground arith

module _ (sys : System) (m p : Ptr) (s : State) where
  -- On a mapped chain of cells that ends below 2 ^ 64, setting a block free and joining it with its
  -- neighbours ends without a fault in the chain of the specification: the block is free, joined with
  -- a free block behind it and with a free block before it; no header outside the chain changes.
  pub coalesce-Rewritten :
      (xs : List Cell) (c : Cell) (ys : List Cell) (q : Ptr)
      → q ≡ p + span xs
      → Chain s.blocks m null p (xs ++ c ∷ ys) null
      → 0 < p
      → ((x : Ptr) → p ≤ x → x < p + span (xs ++ c ∷ ys) → s.mapped x ≡ true)
      → p + span (xs ++ c ∷ ys) < word_mod
      → Ends
          (λ _ t. Rewritten s m null p (p + span (xs ++ c ∷ ys)) (release_cell xs c ys) t)
          (coalesce sys q s)
  unfolding coalesce release_cell
  coalesce-Rewritten xs c ys q e ch pos mapped small =
      let hi : Ptr = p + span (xs ++ c ∷ ys) in
      let here = mapped q (omega arith) (omega (arith, span-append xs (c ∷ ys))) in
      let part = (Chain-split s.blocks m null c ys null p q xs e ch).1 in
      let (d, zs, j) = join_next-cons (freed c) ys in
      let t1 : span (xs ++ freed c ∷ ys) ≡ span (xs ++ c ∷ ys) =
        omega (arith, span-append xs (c ∷ ys), span-append xs (freed c ∷ ys)) in
      let t2 : span (xs ++ d ∷ zs) ≡ span (xs ++ c ∷ ys) = omega (
        arith,
        span-append xs (c ∷ ys),
        span-append xs (d ∷ zs),
        ap span j,
        join_next-span (freed c) ys,
      ) in
      rw (load_block-ok q s here part.0, store_block-ok q s _ here)
        (Ends.seq _ (munprotect-Same sys q _) λ _ t same.
          let r1 = mark_free sys m p s xs c ys q t e ch (record {
            shared = same.shared;
            mapped = same.mapped;
            bytes = same.bytes;
            mmaps = same.mmaps;
            blocks = same.blocks;
          }) in
          let hi1 : p + span (xs ++ freed c ∷ ys) ≡ hi = omega (arith, t1) in
          let hi2 : p + span (xs ++ d ∷ zs) ≡ hi = omega (arith, t2) in
          let in_t = λ (x : Ptr). ap_at r1.after.mapped x in
          Ends.seq _
            (next_at sys m p t xs (freed c) ys q e (Chain-in r1)
              (λ x lo h. in_t x ∙ mapped x lo (omega (arith, hi1))) (omega (arith, hi1)))
            λ _ u k.
              let r2 = Rewritten-trans r1 (rw hi1 at k) in
              Ends.weaken
                (prev_at sys m p u xs d zs q e
                  (subst (λ r. Chain u.blocks m null p (xs ++ r) null) j (Chain-in r2)) pos
                  (λ x lo h. ap_at r2.after.mapped x ∙ mapped x lo (omega (arith, hi2)))
                  (omega (arith, hi2)))
                λ _ w l. Rewritten-trans r2 (rw (hi2, ← j) at l))
