-- ===== src/Chain/Undo.antt =====
-- `coalesce` of vgc_free on an MMAP block, and an allocation that is freed again.
use vgc_malloc.Base.{
  ℕ, ◌+◌, ◌-◌, ◌%◌, ◌≡◌, ◌≢◌, refl, ◌<◌, ◌≤◌, ◌⊎◌, true, List, [], ◌∷◌, ◌++◌, arith, inl, inr, ◌∙◌,
  sym, ap, ap_at, not, ◌==◌, eqb_true, eqb_false, int_of_size,
}
use mathlib.Core.Path.{subst}
use vgc_malloc.Memory.{
  Ptr, null, MmapHeader, State, is_free, sizeof_malloc_header, sizeof_mmap_header, when, ◌>>=◌,
}
use vgc_malloc.Memory.Ends
use vgc_malloc.Memory.Ends.{Ends, ends, After, Same}
use vgc_malloc.System.{System}
use vgc_malloc.System.Laws.{Locks}
use vgc_malloc.Malloc.Block.{alloc_malloc_block, round_length, user_address}
use vgc_malloc.Malloc.Release.{coalesce, page_of}
use vgc_malloc.Malloc.Address.{header_of_user_address}
use vgc_malloc.Chain.{Cell, span, Chain}
use vgc_malloc.Chain.Coalesce.{release_cell}
use vgc_malloc.Chain.Free.{coalesce-Rewritten, Chain-in}
use vgc_malloc.Chain.Mmap.{IsMmap}
use vgc_malloc.Chain.FirstFit.{first_fit, Allocated, first_fit-append}
use vgc_malloc.Chain.Grant.{alloc_malloc_block-Granted}
use vgc_malloc.Chain.RoundTrip.{
  IsCoalesced, release_cell-place, release_cell-IsCoalesced, release_cell-span,
}

-- Every cell has a whole number of pages.
abbrev pub IsPaged : List Cell → Type 0
IsPaged [] = Unit {0}
IsPaged (c ∷ cs) = (c.size % 4096 ≡ 0) × IsPaged cs

pub IsPaged-span : (xs ys : List Cell) → IsPaged (xs ++ ys) → span xs % 4096 ≡ 0
IsPaged-span [] ys h = omega arith
IsPaged-span (x ∷ xs) ys (h, hs) = omega (arith, IsPaged-span xs ys hs)

-- The headers of the MMAP block at `m` form a chain of `cells` again, as in `s`, and no other header
-- has changed.
abbrev pub Restored : State → Ptr → MmapHeader → List Cell → State → Type 0
Restored s m h cells t =
    Chain t.blocks m null (m + sizeof_mmap_header) cells null
    × ((x : Ptr) → (x < m + sizeof_mmap_header) ⊎ (m + h.size ≤ x) → t.blocks x ≡ s.blocks x)

module _ (sys : System) {s : State} {m : Ptr} {h : MmapHeader} {cells : List Cell} where
  -- Freeing one block of a well-formed MMAP block without free neighbours ends without a fault in a
  -- chain of headers that has none either, and that covers the same bytes.
  pub coalesce-IsCoalesced :
      (xs : List Cell) (c : Cell) (ys : List Cell)
      → cells ≡ xs ++ c ∷ ys
      → IsMmap s m h cells
      → IsCoalesced cells
      → Ends
          (λ _ t.
            (cells' : List Cell) × Restored s m h cells' t
            × IsCoalesced cells'
            × (span cells' ≡ span cells))
          (coalesce sys (m + sizeof_mmap_header + span xs) s)
  coalesce-IsCoalesced xs c ys e v tidy =
      let all : span cells ≡ span (xs ++ c ∷ ys) = ap span e in
      Ends.weaken
        (coalesce-Rewritten sys m (m + sizeof_mmap_header) s xs c ys
          (m + sizeof_mmap_header + span xs) refl (rw e at v.chain) (omega arith)
          (λ x lo hi. v.mapped x (omega arith) (omega (arith, all, v.filled)))
          (omega (arith, all, v.filled, v.within, v.bound)))
        λ _ t k. (
          release_cell xs c ys,
          (
            Chain-in k,
            λ x o.
                ap_at k.after.blocks x
                ∙ k.outside x
                    (elim o [ inl l ↦ inl l | inr l ↦ inr (omega (arith, all, v.filled)) ]),
          ),
          release_cell-IsCoalesced xs c ys (subst IsCoalesced e tidy),
          release_cell-span xs c ys ∙ sym all,
        )

  -- The part of the round trip after a successful allocation.
  undo :
      (len a : ℕ) (t : State)
      → IsMmap s m h cells
      → IsCoalesced cells
      → (k : Allocated s m h cells len a t)
      → Ends (λ _ u. Restored s m h cells u) (coalesce sys k.place t)
  undo len a t v tidy k =
      let z = k.found in
      let n = round_length s.shared.is_mprotect_enabled s.shared.page_size len in
      let free_ : is_free z.found.status ≡ true = ground (arith, z.fit) in
      let (given, rest, e, back, _) =
        release_cell-place n z.before z.found z.behind (subst IsCoalesced z.cells tidy) free_ in
      let spec : first_fit len n cells ≡ z.before ++ (given ∷ rest) =
        ap (first_fit len n) z.cells
        ∙ (first_fit-append len n z.before z.found z.behind z.skipped z.fit
            ∙ ap (λ r. z.before ++ r) e) in
      let w = k.valid in
      let all = ap span spec in
      Ends.weaken
        (coalesce-Rewritten sys m (m + sizeof_mmap_header) t z.before given rest k.place z.place
          (rw spec at w.chain) (omega arith)
          (λ x lo hi. w.mapped x (omega arith) (omega (arith, all, w.filled)))
          (omega (arith, all, w.filled, w.within, w.bound)))
        λ _ u l. (
          subst (λ r. Chain u.blocks m null (m + sizeof_mmap_header) r null) (back ∙ sym z.cells)
              (Chain-in l),
          λ x o.
              (ap_at l.after.blocks x
                ∙ l.outside x
                    (elim o [ inl b ↦ inl b | inr b ↦ inr (omega (arith, all, w.filled)) ]))
              ∙ k.outside x o,
        )

  -- An allocation in an MMAP block without free neighbours, followed by freeing the block that
  -- vgc_free finds from the address, restores every header, where all locks are granted, blocks and
  -- the MMAP block lie on pages of 4096 bytes, guard pages are in use, and the length is below
  -- 2 ^ 31 and no multiple of the page.
  pub alloc_malloc_block-coalesce :
      (len : ℕ)
      → Locks sys
      → s.shared.page_size ≡ 4096
      → s.shared.is_mprotect_enabled ≡ true
      → m % 4096 ≡ 0
      → len < 2147483648
      → len % 4096 ≢ 0
      → IsMmap s m h cells
      → IsCoalesced cells
      → IsPaged cells
      → Ends
          (λ _ t. Restored s m h cells t)
          ((do
            a ← alloc_malloc_block sys m len
            when (not (a == null)) (coalesce sys (page_of true 4096 a - sizeof_malloc_header)))
            s)
  alloc_malloc_block-coalesce len locks page enabled base small off v tidy paged =
      Ends.seq _ (alloc_malloc_block-Granted sys locks len page v) λ a t g. elim g [
        | inl (e, _, same) ↦
            rw (eqb_true e) (ends ((rw same.blocks v.chain), λ x o. ap_at same.blocks x))
        | inr k ↦
            let z = k.found in
            let a' : a ≡ user_address true 4096 (int_of_size len) k.place =
              subst (λ en. a ≡ user_address en 4096 (int_of_size len) k.place) enabled
                (subst
                  (λ ps. a ≡ user_address s.shared.is_mprotect_enabled ps (int_of_size len) k.place)
                  page k.address) in
            let start : k.place % 4096 ≡ 0 = omega (
              arith,
              z.place,
              base,
              IsPaged-span z.before (z.found ∷ z.behind) (subst IsPaged z.cells paged),
            ) in
            let found : page_of true 4096 a - sizeof_malloc_header ≡ k.place =
              ap (λ b. page_of true 4096 b - sizeof_malloc_header) a'
              ∙ (header_of_user_address k.place len small start).1 off in
            rw (eqb_false {a = a} {b = 0} (omega (arith, a')), found) (undo len a t v tidy k)
      ]
