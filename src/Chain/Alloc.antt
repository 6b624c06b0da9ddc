-- ===== src/Chain/Alloc.antt =====
-- carve of allocMallocBlock on a chain: the split, the block taken, the address.
use vgc_malloc.Base.{
  ℕ, ◌+◌, ◌≡◌, refl, ◌<◌, ◌≤◌, Bool, true, false, some, List, ◌∷◌, arith, ltb, add64, if◌then◌else◌,
  word_mod, int_of_size, length,
}
use vgc_malloc.Memory.{Ptr, null, MmapHeader, State, sizeof_malloc_header, ◌>>=◌}
use vgc_malloc.Memory.Ends
use vgc_malloc.Memory.Ends.{Ends, ends, After, After-Same, Same, load_block-ok}
use vgc_malloc.System.{System}
use vgc_malloc.Malloc.Block.{
  stacktrace_save, carve, round_length, user_address, split_block, take_block,
}
use vgc_malloc.Chain.{Cell, end_of, span, link, Chain}
use vgc_malloc.Chain.Carve.{Carved, take_whole, take_front, split_rest}

module _ (s : State) (m : Ptr) (h : MmapHeader) (pv q n : ℕ) (c : Cell) (ys : List Cell) where
  Carved-Same : {t u : State} → Carved s m h pv q n c ys t → Same t u → Carved s m h pv q n c ys u
  Carved-Same k same = record {
    blocks = k.blocks;
    after = After-Same k.after same;
    chain = k.chain;
    outside = k.outside;
  }

  module _ (sys : System) where
    -- The two ways to give the cell out, as `carve` chooses between them.
    give_out :
        Chain s.blocks m pv q (c ∷ ys) null
        → s.mapped m ≡ true
        → s.mmaps m ≡ some h
        → ((a : Ptr) → q ≤ a → a < end_of q c + span ys → s.mapped a ≡ true)
        → c.size < word_mod
        → (b : Bool) → ltb (n + sizeof_malloc_header) c.size ≡ b
        → Ends
            (λ _ t. Carved s m h pv q n c ys t)
            ((if b
                then (split_block sys m q (n + sizeof_malloc_header) >>= λ _.
                    take_block sys m q n (q + (n + sizeof_malloc_header)))
                else take_block sys m q c.size (link (end_of q c) ys null))
              s)
    give_out ch mm hh mapped small true e =
        let lt : n + sizeof_malloc_header < c.size = ground arith in
        let same : q + (n + sizeof_malloc_header) ≡ q + (sizeof_malloc_header + n) = omega arith in
        Ends.seq _
          (split_rest sys m pv q c ys s h n ch (λ a x y. mapped a x (omega arith)) lt small)
          λ _ t at. rw same (take_front sys m pv q c ys s h n t ch mm hh mapped lt at)
    give_out ch mm hh mapped small false e = take_whole sys m pv q c ys s h n ch mm hh mapped e

module _ (s : State) (m : Ptr) (h : MmapHeader) (pv q : ℕ) (c : Cell) (ys : List Cell)
    (sys : System) where
  pub carve-Carved :
      (length : ℕ)
      → let n = round_length s.shared.is_mprotect_enabled s.shared.page_size length in
        Chain s.blocks m pv q (c ∷ ys) null
        → s.mapped m ≡ true
        → s.mmaps m ≡ some h
        → ((a : Ptr) → q ≤ a → a < end_of q c + span ys → s.mapped a ≡ true)
        → c.size < word_mod
        → n + sizeof_malloc_header < word_mod
        → Ends
            (λ a t.
              (a
                ≡ user_address s.shared.is_mprotect_enabled s.shared.page_size
                    (int_of_size length)
                    q)
              × Carved s m h pv q n c ys t)
            (carve sys m q length s)
  unfolding carve stacktrace_save
  carve-Carved length ch mm hh mapped small nowrap =
      let n = round_length s.shared.is_mprotect_enabled s.shared.page_size length in
      let e : add64 n sizeof_malloc_header ≡ n + sizeof_malloc_header = omega arith in
      rw (load_block-ok q s (mapped q (omega arith) (omega arith)) ch.0, e)
        (Ends.seq _ (give_out s m h pv q n c ys sys ch mm hh mapped small _ refl) λ _ t k. ends (
          refl,
          Carved-Same s m h pv q n c ys k
              (record { shared = refl; mapped = refl; bytes = refl; mmaps = refl; blocks = refl }),
        ))
