-- ===== src/Message/Layout.antt =====
-- The columns of a message, and the bound of its buffer.
use vgc_malloc.Base.{
  ℕ, zero, suc, ◌+◌, ◌-◌, ◌≡◌, ◌≢◌, refl, ap, ◌∙◌, ◌⊎◌, inl, inr, ◌≤◌, ◌<◌, true, false, Option,
  some, [], ◌∷◌, ◌++◌, ◌==◌, leb, length, length-append, arith, if◌then◌else◌, Bool-cases,
  eqb_false, le_of_leb,
}
use vgc_malloc.Message.{Text, take, drop, repeat, type_function, type_title, filler, column, dots}

length-drop : (n : ℕ) (t : Text) → length (drop n t) ≡ length t - n
length-drop zero t = omega arith
length-drop (suc n) [] = omega arith
length-drop (suc n) (c ∷ t) = omega (arith, length-drop n t)

take-all : (n : ℕ) (t : Text) → length t ≤ n → take n t ≡ t
take-all zero [] h = refl
take-all (suc n) [] h = refl
take-all zero (c ∷ t) h = absurd (omega arith)
take-all (suc n) (c ∷ t) h = ap (λ u. c ∷ u) (take-all n t (omega arith))

length-take : (n : ℕ) (t : Text) → n ≤ length t → length (take n t) ≡ n
length-take zero t h = refl
length-take (suc n) [] h = absurd (omega arith)
length-take (suc n) (c ∷ t) h = ap suc (length-take n t (omega arith))

le_of_leb-false : (a b : ℕ) → leb a b ≡ false → b < a
le_of_leb-false a b h = ground arith

length-repeat : (n c : ℕ) → length (repeat n c) ≡ n
length-repeat zero c = refl
length-repeat (suc n) c = ap suc (length-repeat n c)

eq_of_eqb : (a b : ℕ) → (a == b) ≡ true → a ≡ b
eq_of_eqb a b h = ground arith

ne_of_eqb : (a b : ℕ) → (a == b) ≡ false → a ≢ b
ne_of_eqb a b h = ground arith

-- A text of `w` characters at most and its dots.
padded :
    (w : ℕ) (d t : Text)
    → length d ≡ w + 2
    → length (take w t ++ drop (if leb (length d) (length t) then length d - 2 else length t) d)
      ≡ (if length t == suc w then suc w else w + 2)
padded w d t e = elim (Bool-cases (leb (length d) (length t))) [
  | inl h ↦
      let long = le_of_leb (length d) (length t) h in
      rw (h, eqb_false {a = length t} {b = suc w} (omega (arith, long, e)))
        (total (length d - 2) ∙ omega (arith, e, length-take w t (omega (arith, long, e))))
  | inr h ↦ rw h (short (le_of_leb-false (length d) (length t) h) (Bool-cases (length t == suc w)))
]
  where
    total : (n : ℕ) → length (take w t ++ drop n d) ≡ length (take w t) + (length d - n)
    total n =
        length-append (take w t) (drop n d) ∙ ap (λ k. length (take w t) + k) (length-drop n d)

    short :
        length t < length d
        → ((length t == suc w) ≡ true) ⊎ ((length t == suc w) ≡ false)
        → length (take w t ++ drop (length t) d) ≡ (if length t == suc w then suc w else w + 2)
    short less o = elim o [
      | inl h ↦
          let same = eq_of_eqb (length t) (suc w) h in
          rw h (total (length t) ∙ omega (arith, e, same, length-take w t (omega (arith, same))))
      | inr h ↦
          let small : length t ≤ w = omega (arith, less, e, ne_of_eqb (length t) (suc w) h) in
          rw h (total (length t) ∙ omega (arith, e, small, ap length (take-all w t small)))
    ]

-- The columns of a message are aligned but for one length: the name of the function takes 24 characters
-- and the title 30, colon and blank included, but where they have 23 and 29 characters, it is 23 and
-- 29, and the colon is lost.
pub column_width :
    (t : Text) (status : Option Text)
    → (length (column 22 type_function (some t) status) ≡ (if length t == 23 then 23 else 24))
      × (length (column 28 type_title (some t) status) ≡ (if length t == 29 then 29 else 30))
unfolding dots
column_width t status =
    (padded 22 (filler type_function) t refl, padded 28 (filler type_title) t refl)
