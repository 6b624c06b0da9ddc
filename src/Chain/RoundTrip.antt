-- ===== src/Chain/RoundTrip.antt =====
-- Lists of cells under an allocation and under freeing.
use vgc_malloc.Base.{
  ℕ, suc, ◌+◌, ◌-◌, ◌≡◌, refl, Bool, true, false, List, [], ◌∷◌, ◌++◌, arith, inl, inr, ◌∙◌, ap,
  ltb, Bool-cases, ◌&&◌,
}
use vgc_malloc.Memory.{free, busy, is_free, sizeof_malloc_header}
use vgc_malloc.Chain.{Cell, cell, span}
use vgc_malloc.Chain.Frame.{span-append}
use vgc_malloc.Chain.Mmap.{busy_cells, busy_cells-append}
use vgc_malloc.Chain.Carve.{place}
use vgc_malloc.Chain.Join.{joined_cell, join_next}
use vgc_malloc.Chain.Coalesce.{join_prev, freed, release_cell}

-- Whether the first of the cells is free.
abbrev pub starts_free : List Cell → Bool
starts_free [] = false
starts_free (c ∷ cs) = is_free c.status

-- No two neighbours are free.
abbrev pub IsCoalesced : List Cell → Type 0
IsCoalesced [] = Unit {0}
IsCoalesced (c ∷ cs) = ((is_free c.status && starts_free cs) ≡ false) × IsCoalesced cs

-- Whether the last of the cells is free.
abbrev ends_free : List Cell → Bool
ends_free [] = false
ends_free (c ∷ []) = is_free c.status
ends_free (c ∷ d ∷ cs) = ends_free (d ∷ cs)

join_prev_busy :
    (xs : List Cell) (c : Cell) (cs : List Cell)
    → ends_free xs ≡ false
    → join_prev xs (c ∷ cs) ≡ xs ++ c ∷ cs
unfolding join_prev
join_prev_busy [] c cs e = refl
join_prev_busy (w ∷ []) c cs e = rw e
join_prev_busy (w ∷ x ∷ xs) c cs e = ap (λ r. w ∷ r) (join_prev_busy (x ∷ xs) c cs e)

-- The neighbours of a free cell.
ends_busy :
    (xs : List Cell) (c : Cell) (ys : List Cell)
    → IsCoalesced (xs ++ c ∷ ys)
    → is_free c.status ≡ true
    → (ends_free xs ≡ false) × (starts_free ys ≡ false)
ends_busy [] c ys (h, hs) f = (refl, ground arith)
ends_busy (w ∷ []) c ys (h, hs) f = (ground arith, (ends_busy [] c ys hs f).1)
ends_busy (w ∷ x ∷ xs) c ys (h, hs) f = ends_busy (x ∷ xs) c ys hs f

join_next_busy : (c : Cell) (ys : List Cell) → starts_free ys ≡ false → join_next c ys ≡ c ∷ ys
unfolding join_next
join_next_busy c [] e = refl
join_next_busy c (d ∷ ds) e = rw e

-- What is given out and freed again has the size it had.
replaced :
    (n : ℕ) (c : Cell) (ys : List Cell) (b : Bool)
    → is_free c.status ≡ true
    → starts_free ys ≡ false
    → ltb (n + sizeof_malloc_header) c.size ≡ b
    → (given : Cell) × (rest : List Cell) × (place n c ++ ys ≡ given ∷ rest)
      × (join_next (freed given) rest ≡ c ∷ ys)
      × (is_free given.status ≡ false)
unfolding place join_next
replaced n c ys true f e lt =
    (cell n busy, cell (c.size - (n + sizeof_malloc_header)) free ∷ ys, rw lt, ground arith, refl)
replaced n c ys false f e lt = (
  cell c.size busy,
  ys,
  rw lt,
  join_next_busy (freed c) ys e ∙ ap (λ r. r ∷ ys) (ground arith),
  refl,
)

-- A cell given out and freed again leaves the cells as they were.
pub release_cell-place :
    (n : ℕ) (xs : List Cell) (c : Cell) (ys : List Cell)
    → IsCoalesced (xs ++ c ∷ ys)
    → is_free c.status ≡ true
    → (given : Cell) × (rest : List Cell) × (place n c ++ ys ≡ given ∷ rest)
      × (release_cell xs given rest ≡ xs ++ c ∷ ys)
      × (is_free given.status ≡ false)
unfolding release_cell
release_cell-place n xs c ys tidy f =
    let (before, behind) = ends_busy xs c ys tidy f in
    let (given, rest, e, j, used) =
      replaced n c ys (ltb (n + sizeof_malloc_header) c.size) f behind refl in
    (given, rest, e, ap (join_prev xs) j ∙ join_prev_busy xs c ys before, used)

join_next-starts :
    (c : Cell) (ys : List Cell)
    → is_free c.status ≡ true
    → IsCoalesced ys
    → (d : Cell) × (zs : List Cell) × (join_next c ys ≡ d ∷ zs)
      × (is_free d.status ≡ true)
      × (starts_free zs ≡ false)
      × IsCoalesced zs
unfolding join_next
join_next-starts c [] f tidy = (c, [], refl, f, refl, tt)
join_next-starts c (y ∷ ys) f (h, hs) = elim (Bool-cases (is_free y.status)) [
  | inl e ↦ (joined_cell c y, ys, rw e, f, ground arith, hs)
  | inr e ↦ (c, y ∷ ys, rw e, f, e, (h, hs))
]

starts_free-join_prev :
    (x : Cell) (xs cs : List Cell) → starts_free (join_prev (x ∷ xs) cs) ≡ is_free x.status
unfolding join_prev
starts_free-join_prev x [] [] = refl
starts_free-join_prev x [] (c ∷ cs) = elim (Bool-cases (is_free x.status)) [
  | inl e ↦ rw e e
  | inr e ↦ rw e e
]
starts_free-join_prev x (y ∷ xs) cs = refl

join_prev-IsCoalesced :
    (xs : List Cell) (c d : Cell) (ys zs : List Cell)
    → IsCoalesced (xs ++ c ∷ ys)
    → is_free d.status ≡ true
    → starts_free zs ≡ false
    → IsCoalesced zs
    → IsCoalesced (join_prev xs (d ∷ zs))
unfolding join_prev
join_prev-IsCoalesced [] c d ys zs tidy f s t = (ground arith, t)
join_prev-IsCoalesced (w ∷ []) c d ys zs tidy f s t = elim (Bool-cases (is_free w.status)) [
  | inl e ↦ rw e (ground arith, t)
  | inr e ↦ rw e (ground arith, (ground arith, t))
]
join_prev-IsCoalesced (w ∷ x ∷ xs) c d ys zs (h, hs) f s t =
    (rw (starts_free-join_prev x xs (d ∷ zs)) h, join_prev-IsCoalesced (x ∷ xs) c d ys zs hs f s t)

IsCoalesced-behind :
    (xs : List Cell) (c : Cell) (ys : List Cell) → IsCoalesced (xs ++ c ∷ ys) → IsCoalesced ys
IsCoalesced-behind [] c ys (h, hs) = hs
IsCoalesced-behind (x ∷ xs) c ys (h, hs) = IsCoalesced-behind xs c ys hs

-- Freeing keeps the cells coalesced.
pub release_cell-IsCoalesced :
    (xs : List Cell) (c : Cell) (ys : List Cell)
    → IsCoalesced (xs ++ c ∷ ys)
    → IsCoalesced (release_cell xs c ys)
unfolding release_cell
release_cell-IsCoalesced xs c ys tidy =
    let (d, zs, j, f, s, t) =
      join_next-starts (freed c) ys refl (IsCoalesced-behind xs c ys tidy) in
    rw j (join_prev-IsCoalesced xs c d ys zs tidy f s t)

join_next-span : (c : Cell) (ys : List Cell) → span (join_next c ys) ≡ span (c ∷ ys)
unfolding join_next
join_next-span c [] = refl
join_next-span c (d ∷ ds) = ground arith

join_prev-span : (xs cs : List Cell) → span (join_prev xs cs) ≡ span xs + span cs
unfolding join_prev
join_prev-span [] cs = omega arith
join_prev-span (w ∷ []) [] = omega arith
join_prev-span (w ∷ []) (c ∷ cs) = ground arith
join_prev-span (w ∷ x ∷ xs) cs = omega (arith, join_prev-span (x ∷ xs) cs)

-- Freeing keeps every byte accounted for.
pub release_cell-span :
    (xs : List Cell) (c : Cell) (ys : List Cell) → span (release_cell xs c ys) ≡ span (xs ++ c ∷ ys)
unfolding release_cell
release_cell-span xs c ys = omega (
  arith,
  join_prev-span xs (join_next (freed c) ys),
  join_next-span (freed c) ys,
  span-append xs (c ∷ ys),
)

join_next-busy : (c : Cell) (ys : List Cell) → busy_cells (join_next c ys) ≡ busy_cells (c ∷ ys)
unfolding join_next
join_next-busy c [] = refl
join_next-busy c (d ∷ ds) = ground arith

join_next-starts_free :
    (c : Cell) (ys : List Cell) → is_free c.status ≡ true → starts_free (join_next c ys) ≡ true
unfolding join_next
join_next-starts_free c [] f = f
join_next-starts_free c (d ∷ ds) f = ground arith

join_prev-busy :
    (xs cs : List Cell)
    → starts_free cs ≡ true
    → busy_cells (join_prev xs cs) ≡ busy_cells xs + busy_cells cs
unfolding join_prev
join_prev-busy [] cs f = omega arith
join_prev-busy (w ∷ []) [] f = omega arith
join_prev-busy (w ∷ []) (c ∷ cs) f = ground arith
join_prev-busy (w ∷ x ∷ xs) cs f = omega (arith, join_prev-busy (x ∷ xs) cs f)

-- Freeing a busy cell leaves one busy cell less.
pub release_cell-busy :
    (xs : List Cell) (c : Cell) (ys : List Cell)
    → is_free c.status ≡ false
    → suc (busy_cells (release_cell xs c ys)) ≡ busy_cells (xs ++ c ∷ ys)
unfolding release_cell
release_cell-busy xs c ys used =
    let one : busy_cells (c ∷ ys) ≡ suc (busy_cells (freed c ∷ ys)) = rw used (omega arith) in
    omega (
      arith,
      one,
      join_prev-busy xs (join_next (freed c) ys) (join_next-starts_free (freed c) ys refl),
      join_next-busy (freed c) ys,
      busy_cells-append xs (c ∷ ys),
    )
