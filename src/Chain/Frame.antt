-- ===== src/Chain/Frame.antt =====
-- Chains under writes elsewhere, and chains put together.
use vgc_malloc.Base.{◌+◌, ◌≡◌, refl, ◌<◌, ◌≤◌, List, [], ◌∷◌, ◌++◌, arith, ◌∙◌}
use vgc_malloc.Memory.{Ptr}
use vgc_malloc.Chain.{Cell, Blocks, end_of, span, link, Chain, last}

-- A chain survives any change that spares the addresses of its headers.
pub frame :
    (f g : Blocks) (m prev p : Ptr) (cs : List Cell) (stop : Ptr)
    → Chain f m prev p cs stop
    → ((q : Ptr) → p ≤ q → q < p + span cs → g q ≡ f q)
    → Chain g m prev p cs stop
frame f g m prev p [] stop h same = tt
frame f g m prev p (c ∷ cs) stop (h, hs) same = (
  same p (omega arith) (omega arith) ∙ h,
  frame f g m p (end_of p c) cs stop hs λ q a b. same q (omega arith) (omega arith),
)

pub link-append :
    (a q stop : Ptr) (xs : List Cell) (c : Cell) (ys : List Cell)
    → (xs ≡ [] → a ≡ q)
    → link a (xs ++ c ∷ ys) stop ≡ link a xs q
link-append a q stop [] c ys e = e refl
link-append a q stop (x ∷ xs) c ys e = refl

module _ (f : Blocks) (m : Ptr) (stop : Ptr) (c : Cell) (ys : List Cell) where
  end_of-span :
      (p q : Ptr) (x : Cell) (xs : List Cell) → q ≡ p + span (x ∷ xs) → xs ≡ [] → end_of p x ≡ q
  end_of-span p q x [] e n = omega arith
  end_of-span p q x (y ∷ xs) e n = cc

  pub Chain-split :
      (prev p q : Ptr) (xs : List Cell)
      → q ≡ p + span xs
      → Chain f m prev p (xs ++ c ∷ ys) stop
      → Chain f m prev p xs q × Chain f m (last prev p xs) q (c ∷ ys) stop
  Chain-split prev p q [] e h = (tt, rw (let e' : q ≡ p = omega arith in e') h)
  Chain-split prev p q (x ∷ xs) e (h, hs) =
      let (front, back) = Chain-split p (end_of p x) q xs (omega arith) hs in
      ((rw (← link-append (end_of p x) q stop xs c ys (end_of-span p q x xs e)) h, front), back)

  pub Chain-join :
      (prev p q : Ptr) (xs : List Cell)
      → q ≡ p + span xs
      → Chain f m prev p xs q
      → Chain f m (last prev p xs) q (c ∷ ys) stop
      → Chain f m prev p (xs ++ c ∷ ys) stop
  Chain-join prev p q [] e h k = rw (let e' : p ≡ q = omega arith in e') k
  Chain-join prev p q (x ∷ xs) e (h, hs) k = (
    rw (link-append (end_of p x) q stop xs c ys (end_of-span p q x xs e)) h,
    Chain-join p (end_of p x) q xs (omega arith) hs k,
  )

pub span-append : (xs ys : List Cell) → span (xs ++ ys) ≡ span xs + span ys
span-append [] ys = omega arith
span-append (x ∷ xs) ys = omega (arith, span-append xs ys)
