-- ===== src/Chain/Carve.antt =====
-- `carve` of allocMallocBlock on a chain: the block found is given out whole, or split.
use vgc_malloc.Base.{
  ℕ, ◌+◌, ◌-◌, ◌≡◌, ◌≢◌, refl, ◌<◌, ◌≤◌, ◌⊎◌, true, false, some, List, [], ◌∷◌, ◌++◌, arith, ltb,
  ltb-true, sub64, inl, inr, ◌∙◌, if◌then◌else◌, word_mod, ap_at,
}
use vgc_malloc.Memory.{Ptr, null, MmapHeader, State, update, free, busy, sizeof_malloc_header}
use vgc_malloc.Memory.Ends
use vgc_malloc.Memory.Ends.{Ends, ends, After, Same, load_block-ok, store_block-ok}
use vgc_malloc.System.{System}
use vgc_malloc.Mprotect.Laws.{mprotect-Same}
use vgc_malloc.Malloc.Block.{split_block, take_block}
use vgc_malloc.Chain.{Cell, cell, Blocks, header, end_of, span, link, Chain}
use vgc_malloc.Chain.Frame.{frame}
use vgc_malloc.Chain.Patch.{update_at, update_off, relinked_off, relinked-Chain}
use vgc_malloc.Chain.Take.{one_more, taken, Behind, Chain-Behind, take_block-taken}

-- What becomes of a free cell that is given out for `n` bytes.
unfoldable pub place : ℕ → Cell → List Cell
place n c =
    if ltb (n + sizeof_malloc_header) c.size
    then cell n busy ∷ cell (c.size - (n + sizeof_malloc_header)) free ∷ []
    else cell c.size busy ∷ []

module _ (f : Blocks) (m pv q len e : ℕ) where
  pub taken-Chain :
      (rs : List Cell)
      → e ≡ end_of q (cell len busy)
      → Behind f m q e rs
      → Chain (taken f m pv q len e rs) m pv q (cell len busy ∷ rs) null
  unfolding taken
  taken-Chain [] eq h = (update_at f q _ refl, tt)
  taken-Chain (r ∷ rs) eq (re, (pv', rest)) =
      let w = update f q (some (header m pv e (cell len busy))) in
      let off =
        λ (a : Ptr) (lt : a < end_of e r). relinked_off w m e (end_of e r) rs {q = a} (inl lt) in
      rw (← eq) (
        off q (omega arith) ∙ update_at f q _ refl,
        (
          off e (omega arith) ∙ (update_off f q _ (omega arith) ∙ re),
          relinked-Chain w m e pv' (end_of e r) rs
              (frame f w m pv' (end_of e r) rs null rest λ a x y. update_off f q _ (omega arith)),
        ),
      )

  pub taken_off :
      (rs : List Cell) (a : Ptr)
      → q < e
      → (a < q) ⊎ (e + span rs ≤ a)
      → taken f m pv q len e rs a ≡ f a
  unfolding taken
  taken_off [] a lt o = update_off f q _ (omega arith)
  taken_off (r ∷ rs) a lt o =
      relinked_off (update f q (some (header m pv e (cell len busy)))) m e (end_of e r) rs
        (omega arith)
      ∙ update_off f q _ (omega arith)

-- The final state after the cell `c` at `q`, with `ys` behind it, is given out for `n` bytes.
pub record Carved (s : State) (m : Ptr) (h : MmapHeader) (pv q n : ℕ) (c : Cell) (ys : List Cell)
    (t : State) : Type 0 where
  pub blocks : Blocks
  pub after : After s (update s.mmaps m (some (one_more h))) blocks t
  pub chain : Chain blocks m pv q (place n c ++ ys) null
  pub outside : (a : Ptr) → (a < q) ⊎ (end_of q c + span ys ≤ a) → blocks a ≡ s.blocks a

module _ (sys : System) (m pv q : Ptr) (c : Cell) (ys : List Cell) (s : State)
    (h : MmapHeader) where
  -- The block is given out whole.
  pub take_whole :
      (n : ℕ)
      → Chain s.blocks m pv q (c ∷ ys) null
      → s.mapped m ≡ true
      → s.mmaps m ≡ some h
      → ((a : Ptr) → q ≤ a → a < end_of q c + span ys → s.mapped a ≡ true)
      → ltb (n + sizeof_malloc_header) c.size ≡ false
      → Ends
          (λ _ t. Carved s m h pv q n c ys t)
          (take_block sys m q c.size (link (end_of q c) ys null) s)
  unfolding place
  take_whole n (hd, tl) mm hh mapped big =
      let b = Chain-Behind s.blocks m q (end_of q c) ys tl in
      rw
        (take_block-taken sys m q c.size (end_of q c) s ys mm hh
          (mapped q (omega arith) (omega arith)) hd (omega arith) b
          (λ a x y. mapped a (omega arith) (omega arith)))
        (ends (record {
          blocks = taken s.blocks m pv q c.size (end_of q c) ys;
          after = record {
            shared = refl;
            mapped = refl;
            bytes = refl;
            mmaps = refl;
            blocks = refl;
          };
          chain = rw big (taken-Chain s.blocks m pv q c.size (end_of q c) ys refl b);
          outside = λ a o. taken_off s.blocks m pv q c.size (end_of q c) ys a (omega arith) o;
        }))

  -- The header of the rest is written, and protected or not.
  pub split_rest :
      (n : ℕ)
      → Chain s.blocks m pv q (c ∷ ys) null
      → ((a : Ptr) → q ≤ a → a < end_of q c → s.mapped a ≡ true)
      → n + sizeof_malloc_header < c.size
      → c.size < word_mod
      → Ends
          (λ _ t.
            After s s.mmaps
              (update s.blocks (q + (sizeof_malloc_header + n)) (
                some (
                  header m q
                    (link (end_of q c) ys null)
                    (cell (c.size - (n + sizeof_malloc_header)) free))))
              t)
          (split_block sys m q (n + sizeof_malloc_header) s)
  unfolding split_block
  split_rest n (hd, tl) mapped lt small =
      let e : Ptr = q + (sizeof_malloc_header + n) in
      let e' : q + (n + sizeof_malloc_header) ≡ e = omega arith in
      let sz : sub64 c.size (n + sizeof_malloc_header) ≡ c.size - (n + sizeof_malloc_header) =
        omega arith in
      let r =
        header m q (link (end_of q c) ys null) (cell (c.size - (n + sizeof_malloc_header)) free) in
      rw
        (
          load_block-ok q s (mapped q (omega arith) (omega arith)) hd,
          e',
          sz,
          store_block-ok e s r (mapped e (omega arith) (omega arith)),
        )
        (Ends.seq _ (mprotect-Same sys e (record s { blocks = update s.blocks e (some r) }))
          λ a t same. ends (record {
            shared = same.shared;
            mapped = same.mapped;
            bytes = same.bytes;
            mmaps = same.mmaps;
            blocks = same.blocks;
          }))

  -- The block is split: its front is given out.
  pub take_front :
      (n : ℕ) (t : State)
      → Chain s.blocks m pv q (c ∷ ys) null
      → s.mapped m ≡ true
      → s.mmaps m ≡ some h
      → ((a : Ptr) → q ≤ a → a < end_of q c + span ys → s.mapped a ≡ true)
      → n + sizeof_malloc_header < c.size
      → After s s.mmaps
          (update s.blocks (q + (sizeof_malloc_header + n)) (
            some (
              header m q
                (link (end_of q c) ys null)
                (cell (c.size - (n + sizeof_malloc_header)) free))))
          t
      → Ends
          (λ _ u. Carved s m h pv q n c ys u)
          (take_block sys m q n (q + (sizeof_malloc_header + n)) t)
  unfolding place
  take_front n t (hd, tl) mm hh mapped lt at =
      let e : Ptr = q + (sizeof_malloc_header + n) in
      let r = cell (c.size - (n + sizeof_malloc_header)) free in
      let f = t.blocks in
      let far : end_of e r ≡ end_of q c = omega arith in
      let off = λ (a : Ptr) (ne : a ≢ e). ap_at at.blocks a ∙ update_off s.blocks e _ ne in
      let front : f q ≡ some (header m pv (link (end_of q c) ys null) c) =
        off q (omega arith) ∙ hd in
      let rest : f e ≡ some (header m q (link (end_of e r) ys null) r) =
        rw far (ap_at at.blocks e ∙ update_at s.blocks e _ refl) in
      let tail : Chain f m q (end_of e r) ys null =
        rw far (frame s.blocks f m q (end_of q c) ys null tl λ a x y. off a (omega arith)) in
      let b : Behind f m q e (r ∷ ys) = (rest, (q, tail)) in
      let at_t = λ (a : Ptr). ap_at at.mapped a in
      rw
        (take_block-taken sys m q n e t (r ∷ ys) (at_t m ∙ mm) (ap_at at.mmaps m ∙ hh)
          (at_t q ∙ mapped q (omega arith) (omega arith)) front (omega arith) b
          (λ a x y. at_t a ∙ mapped a (omega arith) (omega arith)))
        (ends (record {
          blocks = taken f m pv q n e (r ∷ ys);
          after = record {
            shared = at.shared;
            mapped = at.mapped;
            bytes = at.bytes;
            mmaps = λ i. update (at.mmaps i) m (some (one_more h));
            blocks = refl;
          };
          chain = rw (ltb-true lt) (taken-Chain f m pv q n e (r ∷ ys) refl b);
          outside = λ a o.
              taken_off f m pv q n e (r ∷ ys) a (omega arith)
                (elim o [ inl x ↦ inl x | inr y ↦ inr (omega arith) ])
              ∙ off a (omega arith);
        }))
