-- ===== src/Chain/Regain.antt =====
-- vgc_malloc followed by vgc_free.
use vgc_malloc.Base.{
  ℕ, ◌+◌, ◌-◌, ◌%◌, ◌≡◌, ◌≢◌, refl, ◌<◌, ◌≤◌, ◌⊎◌, true, List, [], ◌∷◌, ◌++◌, arith, ◌∙◌, sym, ap,
  ap_at, length, int_of_size, add64, sub64, word_mod,
}
use mathlib.Core.Path.{subst}
use vgc_malloc.Memory.{
  Ptr, MmapHeader, State, is_free, sizeof_malloc_header, sizeof_mmap_header, ◌>>=◌,
}
use vgc_malloc.Memory.Ends
use vgc_malloc.Memory.Ends.{Ends, ends}
use vgc_malloc.System.{System}
use vgc_malloc.System.Laws.{Locks}
use vgc_malloc.Malloc.Block.{round_length, user_address}
use vgc_malloc.Malloc.Release.{page_of, vgc_free}
use vgc_malloc.Malloc.Api.{align_size, malloc}
use vgc_malloc.Malloc.Address.{int_of_size_small, header_of_user_address}
use vgc_malloc.Chain.{Cell, span}
use vgc_malloc.Chain.Frame.{span-append}
use vgc_malloc.Chain.Patch.{update_off}
use vgc_malloc.Chain.Take.{one_more}
use vgc_malloc.Chain.Coalesce.{release_cell}
use vgc_malloc.Chain.Search.{NoneFits}
use vgc_malloc.Chain.Mmap.{IsMmap, busy_cells-le}
use vgc_malloc.Chain.FirstFit.{first_fit, Allocated, first_fit-append}
use vgc_malloc.Chain.RoundTrip.{IsCoalesced, release_cell-place}
use vgc_malloc.Chain.Undo.{IsPaged, IsPaged-span}
use vgc_malloc.Chain.Released.{one_less}
use vgc_malloc.Chain.Freed.{vgc_free-Released}
use vgc_malloc.Chain.Given.{malloc-Allocated}

-- The MMAP block at `m` is well-formed with its header and its cells as before, and nothing outside
-- it has changed.
pub record Regained (s : State) (m : Ptr) (h : MmapHeader) (cells : List Cell) (t : State)
    : Type 0 where
  pub valid : IsMmap t m h cells
  pub shared : t.shared ≡ s.shared
  pub mapped : t.mapped ≡ s.mapped
  pub bytes : t.bytes ≡ s.bytes
  pub others : (x : Ptr) → x ≢ m → t.mmaps x ≡ s.mmaps x
  pub outside :
      (x : Ptr) → (x < m + sizeof_mmap_header) ⊎ (m + h.size ≤ x) → t.blocks x ≡ s.blocks x

IsPaged-found :
    (xs : List Cell) (c : Cell) (ys : List Cell) → IsPaged (xs ++ c ∷ ys) → c.size % 4096 ≡ 0
IsPaged-found [] c ys (h, hs) = h
IsPaged-found (x ∷ xs) c ys (h, hs) = IsPaged-found xs c ys hs

one_less-one_more : (h : MmapHeader) → h.elements + 1 < word_mod → one_less (one_more h) ≡ h
one_less-one_more h small =
    let e : sub64 (add64 h.elements 1) 1 ≡ h.elements = omega arith in
    ap (λ n. record h { elements = n }) e

module _ {s : State} {m : Ptr} {h : MmapHeader} {cells : List Cell} where
  -- The address that was handed out lies in the MMAP block, and vgc_free finds its header.
  address_found :
      (size a : ℕ) (t : State)
      → s.shared.page_size ≡ 4096
      → s.shared.is_mprotect_enabled ≡ true
      → m % 4096 ≡ 0
      → 0 < size
      → size < 2147483648
      → size % 4096 ≢ 0
      → IsMmap s m h cells
      → IsPaged cells
      → (k : Allocated s m h cells size a t)
      → (m < a)
        × (a < m + s.shared.mmap_block_size)
        × (page_of t.shared.is_mprotect_enabled t.shared.page_size a - sizeof_malloc_header
            ≡ m + sizeof_mmap_header + span k.found.before)
  address_found size a t page enabled base pos small off v paged k =
      let z = k.found in
      let fit : size ≤ z.found.size = ground (arith, z.fit) in
      let paged' = subst IsPaged z.cells paged in
      let all : span cells ≡ span z.before + span (z.found ∷ z.behind) =
        ap span z.cells ∙ span-append z.before (z.found ∷ z.behind) in
      let a' : a ≡ user_address true 4096 (int_of_size size) k.place =
        subst (λ en. a ≡ user_address en 4096 (int_of_size size) k.place) enabled
          (subst (λ ps. a ≡ user_address s.shared.is_mprotect_enabled ps (int_of_size size) k.place)
            page k.address) in
      let start : k.place % 4096 ≡ 0 =
        omega (arith, z.place, base, IsPaged-span z.before (z.found ∷ z.behind) paged') in
      (
        omega (arith, a', z.place),
        omega (
          arith,
          rw (int_of_size_small size small) at a',
          z.place,
          all,
          v.filled,
          v.within,
          fit,
          IsPaged-found z.before z.found z.behind paged',
        ),
        rw (k.shared, enabled, page, a')
            ((header_of_user_address k.place size small start).1 off ∙ z.place),
      )

  -- The given cell, freed, is the cell it was cut from.
  given_back :
      (sys : System) (size a : ℕ) (t : State)
      → Locks sys
      → IsMmap s m h cells
      → IsCoalesced cells
      → 1 < length cells
      → s.shared.mmap_block_first ≡ m
      → (k : Allocated s m h cells size a t)
      → (m < a)
        × (a < m + s.shared.mmap_block_size)
        × (page_of t.shared.is_mprotect_enabled t.shared.page_size a - sizeof_malloc_header
            ≡ m + sizeof_mmap_header + span k.found.before)
      → Ends (λ _ u. Regained s m h cells u) (vgc_free sys a t)
  given_back sys size a t locks v tidy two first k (low, high, found) =
      let z = k.found in
      let n = round_length s.shared.is_mprotect_enabled s.shared.page_size size in
      let free_ : is_free z.found.status ≡ true = ground (arith, z.fit) in
      let (given, rest, e, back, used) =
        release_cell-place n z.before z.found z.behind (subst IsCoalesced z.cells tidy) free_ in
      let spec : first_fit size n cells ≡ z.before ++ (given ∷ rest) =
        ap (first_fit size n) z.cells
        ∙ (first_fit-append size n z.before z.found z.behind z.skipped z.fit
            ∙ ap (λ r. z.before ++ r) e) in
      let again : release_cell z.before given rest ≡ cells = back ∙ sym z.cells in
      let first' : t.shared.mmap_block_first ≡ m = ap (λ x. x.mmap_block_first) k.shared ∙ first in
      let size' : t.shared.mmap_block_size ≡ s.shared.mmap_block_size =
        ap (λ x. x.mmap_block_size) k.shared in
      Ends.weaken
        (vgc_free-Released sys locks m (one_more h) z.before given rest a t
          (subst (λ r. IsMmap t m (one_more h) r) spec k.valid) used
          (omega (arith, two, ap (length {0}) again)) first' low (omega (arith, high, size')) found)
        λ _ u l. record {
          valid =
              subst (λ x. IsMmap u m x cells)
                (one_less-one_more h
                  (omega (arith, v.elements, v.filled, v.within, v.bound, busy_cells-le cells)))
                (subst (λ r. IsMmap u m (one_less (one_more h)) r) again l.valid);
          shared = l.shared ∙ k.shared;
          mapped = l.mapped ∙ k.mapped;
          bytes = l.bytes ∙ k.bytes;
          others = λ x o.
              ap_at l.mmaps x
              ∙ update_off t.mmaps m _ o
              ∙ ap_at k.mmaps x
              ∙ update_off s.mmaps m _ o;
          outside = λ x o. l.outside x o ∙ k.outside x o;
        }

-- vgc_free on the result of vgc_malloc restores the heap: where the first MMAP block is well-formed,
-- without free neighbours, has room for the size and at least two blocks, all locks are granted,
-- blocks and the MMAP block lie on pages of 4096 bytes, guard pages are in use, and the size is
-- positive, below 2 ^ 31, no multiple of the page and below the maximal size of the block, both calls end without a fault, the MMAP block
-- has its header and its cells as before and is well-formed, and nothing outside it has changed.
pub malloc-vgc_free :
    (sys : System) (m : Ptr) (s : State) {h : MmapHeader} {cells : List Cell} (size : ℕ)
    → Locks sys
    → s.shared.page_size ≡ 4096
    → s.shared.is_mprotect_enabled ≡ true
    → s.shared.mmap_block_first ≡ m
    → m % 4096 ≡ 0
    → 0 < size
    → size < 2147483648
    → size % 4096 ≢ 0
    → size < h.max_size
    → IsMmap s m h cells
    → IsCoalesced cells
    → IsPaged cells
    → 1 < length cells
    → ¬ NoneFits size cells
    → Ends (λ _ t. Regained s m h cells t) ((do a ← malloc sys size; vgc_free sys a) s)
malloc-vgc_free sys m s {h} {cells} size locks page enabled first base pos small off max v tidy
      paged two room =
    let n : align_size s.shared.is_mprotect_enabled size ≡ size = rw enabled refl in
    Ends.seq _
      (subst (λ x. Ends (Allocated s m h cells x) (malloc sys size s)) n
        (malloc-Allocated sys locks m s size page first v pos (omega (arith, n, max))
          (subst (λ x. ¬ NoneFits x cells) (sym n) room)))
      λ a t k.
        given_back sys size a t locks v tidy two first k
          (address_found size a t page enabled base pos small off v paged k)
