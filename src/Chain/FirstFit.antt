-- ===== src/Chain/FirstFit.antt =====
-- The specification of the allocation in one MMAP block, and its invariant.
use vgc_malloc.Base.{
  ℕ, suc, ◌+◌, ◌≡◌, refl, ◌<◌, ◌≤◌, ◌⊎◌, Bool, true, false, some, List, [], ◌∷◌, ◌++◌, arith, inl,
  ◌∙◌, if◌then◌else◌, word_mod, int_of_size, ap, ap_at, length, length-append,
}
use vgc_malloc.Memory.{Ptr, null, MmapHeader, State, is_free, sizeof_mmap_header, update}
use vgc_malloc.Memory.Ends.{Same}
use vgc_malloc.Malloc.Block.{round_length, user_address}
use vgc_malloc.Chain.{Cell, span, last, fits}
use vgc_malloc.Chain.Frame.{span-append}
use vgc_malloc.Chain.Patch.{patch_cells, update_at}
use vgc_malloc.Chain.Take.{one_more}
use vgc_malloc.Chain.Carve.{place, Carved}
use vgc_malloc.Chain.Search.{NoneFits, FirstFit}
use vgc_malloc.Chain.Mmap.{IsMmap, busy_cells, busy_cells-le, busy_cells-append}

-- The first cell with room for `length` bytes is given out for `n` bytes.
unfoldable pub first_fit : (length n : ℕ) → List Cell → List Cell
first_fit length n [] = []
first_fit length n (c ∷ cs) = if fits length c then place n c ++ cs else c ∷ first_fit length n cs

module _ (len n : ℕ) where
  pub first_fit-append :
      (xs : List Cell) (c : Cell) (ys : List Cell)
      → NoneFits len xs
      → fits len c ≡ true
      → first_fit len n (xs ++ c ∷ ys) ≡ xs ++ (place n c ++ ys)
  unfolding first_fit
  first_fit-append [] c ys none_ fit = rw fit
  first_fit-append (x ∷ xs) c ys (e, none_) fit =
      rw e (ap (λ r. x ∷ r) (first_fit-append xs c ys none_ fit))

-- Placing keeps the bytes, and makes one block busy.
place-span : (n : ℕ) (c : Cell) (ys : List Cell) → span (place n c ++ ys) ≡ span (c ∷ ys)
unfolding place
place-span n c ys = ground arith

place-length : (n : ℕ) (c : Cell) (ys : List Cell) → 0 < length (place n c ++ ys)
unfolding place
place-length n c ys = ground arith

place-busy :
    (n : ℕ) (c : Cell) (ys : List Cell)
    → is_free c.status ≡ true
    → busy_cells (place n c ++ ys) ≡ suc (busy_cells (c ∷ ys))
unfolding place
place-busy n c ys e = ground arith

-- Rounding up to whole pages.
pub round_length-bounds :
    (enabled : Bool) (len : ℕ)
    → len + 4096 < word_mod
    → (len ≤ round_length enabled 4096 len) × (round_length enabled 4096 len ≤ len + 4095)
round_length-bounds true len h = ground arith
round_length-bounds false len h = omega arith

-- What allocMallocBlock has done when it hands out `a`: the first cell that fits is given out for
-- `len` bytes, rounded up, and nothing outside the MMAP block has changed.
pub record Allocated (s : State) (m : Ptr) (h : MmapHeader) (cells : List Cell) (len a : ℕ)
    (t : State) : Type 0 where
  pub place : Ptr
  pub found : FirstFit len (m + sizeof_mmap_header) place cells
  pub address :
      a ≡ user_address s.shared.is_mprotect_enabled s.shared.page_size (int_of_size len) place
  pub valid :
      IsMmap t m
        (one_more h)
        (first_fit len (round_length s.shared.is_mprotect_enabled s.shared.page_size len) cells)
  pub shared : t.shared ≡ s.shared
  pub mapped : t.mapped ≡ s.mapped
  pub bytes : t.bytes ≡ s.bytes
  pub mmaps : t.mmaps ≡ update s.mmaps m (some (one_more h))
  pub outside :
      (x : Ptr) → (x < m + sizeof_mmap_header) ⊎ (m + h.size ≤ x) → t.blocks x ≡ s.blocks x

pub IsMmap-Same :
    {s t : State} {m : Ptr} {h : MmapHeader} {cells : List Cell}
    → Same s t
    → IsMmap s m h cells
    → IsMmap t m h cells
IsMmap-Same {h} {cells} same v = record {
  base = v.base;
  here = ap_at same.mmaps _ ∙ v.here;
  chain = rw same.blocks v.chain;
  nonempty = v.nonempty;
  filled = v.filled;
  max = v.max;
  within = rw same.shared v.within;
  bound = rw same.shared v.bound;
  mapped = λ q a b. ap_at same.mapped q ∙ v.mapped q a b;
  elements = v.elements;
  check_start = v.check_start;
  check_end = v.check_end;
}

module _ {s t : State} {m : Ptr} {h : MmapHeader} {cells : List Cell} {len : ℕ} {q : Ptr} where
  -- The block found, given out, leaves a well-formed MMAP block.
  pub Carved-IsMmap :
      (n : ℕ) (v : IsMmap s m h cells) (z : FirstFit len (m + sizeof_mmap_header) q cells)
      → Carved s m h (last null (m + sizeof_mmap_header) z.before) q n z.found z.behind t
      → IsMmap t m (one_more h) (first_fit len n cells)
  Carved-IsMmap n v z k = record {
    base = v.base;
    here = ap_at k.after.mmaps m ∙ update_at s.mmaps m _ refl;
    chain =
        rw (k.after.blocks, spec)
          (patch_cells s.blocks k.blocks m (m + sizeof_mmap_header) q z.before z.found z.behind
            (place n z.found ++ z.behind) (place-length n z.found z.behind) z.place
            (rw z.cells at v.chain) (λ a lt. k.outside a (inl lt)) k.chain);
    nonempty = rw spec (
        omega (
          arith,
          length-append {0} z.before (place n z.found ++ z.behind),
          place-length n z.found z.behind,
        ));
    filled = rw spec (
        omega (
          arith,
          v.filled,
          all,
          span-append z.before (place n z.found ++ z.behind),
          place-span n z.found z.behind,
        ));
    max = v.max;
    within = rw k.after.shared v.within;
    bound = rw k.after.shared v.bound;
    mapped = λ x a b. ap_at k.after.mapped x ∙ v.mapped x a b;
    elements = rw spec (
        omega (
          arith,
          v.elements,
          v.filled,
          v.bound,
          v.within,
          busy_cells-le cells,
          busy,
          busy_cells-append z.before (place n z.found ++ z.behind),
          place-busy n z.found z.behind free_,
        ));
    check_start = v.check_start;
    check_end = v.check_end;
  }
    where
      spec : first_fit len n cells ≡ z.before ++ (place n z.found ++ z.behind)
      spec =
          ap (first_fit len n) z.cells
          ∙ first_fit-append len n z.before z.found z.behind z.skipped z.fit

      all : span cells ≡ span z.before + span (z.found ∷ z.behind)
      all = ap span z.cells ∙ span-append z.before (z.found ∷ z.behind)

      busy : busy_cells cells ≡ busy_cells z.before + busy_cells (z.found ∷ z.behind)
      busy = ap busy_cells z.cells ∙ busy_cells-append z.before (z.found ∷ z.behind)

      free_ : is_free z.found.status ≡ true
      free_ = ground (arith, z.fit)
