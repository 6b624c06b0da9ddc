-- ===== src/Children/Unique.antt =====
-- No process stands twice in the table of children.
use vgc_malloc.Base.{
  ℕ, zero, suc, ◌≡◌, ◌≢◌, refl, ap, ◌∙◌, ◌⊎◌, inl, inr, Bool, true, false, Option, none, some, List,
  [], ◌∷◌, ◌==◌, ◌&&◌, not, ltb, arith, eqb_false, Bool-cases,
}
use vgc_malloc.Memory.{Ptr}
use vgc_malloc.Children.{Child, MprotectBlock, Calls, World, Family}
use vgc_malloc.Children.Table.{is_registered, claim, one_further, find_free_child, count_children}
use vgc_malloc.Children.Thread.{start_child_thread, start_at, remove_child_thread}
use vgc_malloc.Children.Lifecycle.{
  start_found, enter, leave, start_child_debug_corruption, stop_child_debug_corruption,
  start_child_mprotect, stop_child_mprotect,
}
use vgc_malloc.Children.Distribute.{
  Exchange, answered, no_socket, proceed, lost, distribute_child, distribute_loop,
  mprotect_distribute,
}

abbrev pub IsUnique : List Child → Type 0
IsUnique [] = Unit {0}
IsUnique (c ∷ cs) = ((c.pid ≡ 0) ⊎ (is_registered c.pid cs ≡ false)) × IsUnique cs

-- The second table has the entries of the first, some of them set free.
pub data Thins : List Child → List Child → Type 0 where
  thins_nil : Thins [] []
  keeps : {c d : Child} {cs ds : List Child} → d.pid ≡ c.pid → Thins cs ds → Thins (c ∷ cs) (d ∷ ds)
  frees : {c d : Child} {cs ds : List Child} → d.pid ≡ 0 → Thins cs ds → Thins (c ∷ cs) (d ∷ ds)

pub Thins-refl : (cs : List Child) → Thins cs cs
Thins-refl [] = thins_nil
Thins-refl (c ∷ cs) = keeps refl (Thins-refl cs)

pub not_registered :
    (p : ℕ) (c : Child) (cs : List Child)
    → c.pid ≢ p
    → is_registered p cs ≡ false
    → is_registered p (c ∷ cs) ≡ false
unfolding is_registered
not_registered p c cs n h = rw (eqb_false n) h

pub not_registered_cons :
    {p : ℕ} (c : Child) (cs : List Child)
    → is_registered p (c ∷ cs) ≡ false
    → (c.pid ≢ p) × (is_registered p cs ≡ false)
unfolding is_registered
not_registered_cons c cs h = (ground arith, ground arith)

pub is_registered-Thins :
    {p : ℕ} {cs ds : List Child}
    → Thins cs ds
    → p ≢ 0
    → is_registered p cs ≡ false
    → is_registered p ds ≡ false
unfolding is_registered
is_registered-Thins thins_nil n h = refl
is_registered-Thins {p} (keeps {c} {d} {cs} {ds} e t) n h =
    let (m, h') = not_registered_cons c cs h in
    not_registered p d ds (omega (arith, e)) (is_registered-Thins t n h')
is_registered-Thins {p} (frees {c} {d} {cs} {ds} e t) n h =
    let (m, h') = not_registered_cons c cs h in
    not_registered p d ds (omega (arith, e)) (is_registered-Thins t n h')

pub IsUnique-Thins : {cs ds : List Child} → Thins cs ds → IsUnique cs → IsUnique ds
IsUnique-Thins thins_nil u = tt
IsUnique-Thins (keeps {c} {d} {cs} {ds} e t) (f, u) =
    (free_or_single (eq_cases c.pid), IsUnique-Thins t u)
  where
    eq_cases : (n : ℕ) → (n ≡ 0) ⊎ (n ≢ 0)
    eq_cases zero = inl refl
    eq_cases (suc n) = inr (omega arith)

    free_or_single : (c.pid ≡ 0) ⊎ (c.pid ≢ 0) → (d.pid ≡ 0) ⊎ (is_registered d.pid ds ≡ false)
    free_or_single o = elim o [
      | inl z ↦ inl (e ∙ z)
      | inr n ↦ elim f [
        | inl z ↦ inl (e ∙ z)
        | inr h ↦ inr (ap (λ p. is_registered p ds) e ∙ is_registered-Thins t n h)
      ]
    ]
IsUnique-Thins (frees e t) (f, u) = (inl e, IsUnique-Thins t u)

-- A table that differs in the other fields only.
module _ (sys : Calls) where
  start_child_thread-pid : (c : Child) (w : World) → (start_child_thread sys c w).1.pid ≡ c.pid
  unfolding start_child_thread
  start_child_thread-pid c w = ground arith

  pub start_at-Thins : (n : ℕ) (cs : List Child) (w : World) → Thins cs (start_at sys n cs w).1
  unfolding start_at
  start_at-Thins n [] w = thins_nil
  start_at-Thins zero (c ∷ cs) w = keeps (start_child_thread-pid c w) (Thins-refl cs)
  start_at-Thins (suc n) (c ∷ cs) w = keeps refl (start_at-Thins n cs w)

  proceed-Thins :
      (e : Exchange) (c : Child) (cs : List Child) (w : World) (r : List Child × World)
      → Thins cs r.0
      → Thins (c ∷ cs) (proceed sys e c cs w r).0
  unfolding proceed remove_child_thread
  proceed-Thins answered c cs w (ds, v) t = keeps refl t
  proceed-Thins no_socket c cs w r t = keeps refl (Thins-refl cs)
  proceed-Thins lost c cs w r t = frees refl (Thins-refl cs)

  pub distribute_loop-Thins :
      (b : MprotectBlock) (cs : List Child) (w : World) → Thins cs (distribute_loop sys b cs w).0
  unfolding distribute_loop
  distribute_loop-Thins b [] w = thins_nil
  distribute_loop-Thins b (c ∷ cs) w =
      let (e, w') = distribute_child sys b c w in
      proceed-Thins e c cs w' _ (distribute_loop-Thins b cs w')

  pub leave-Thins : (p : ℕ) (cs : List Child) (w : World) → Thins cs (leave sys p cs w).0
  unfolding leave remove_child_thread
  leave-Thins p [] w = thins_nil
  leave-Thins p (c ∷ cs) w = elim (Bool-cases (c.pid == p)) [
    | inl e ↦ rw e (frees refl (Thins-refl cs))
    | inr e ↦ rw e (keeps refl (leave-Thins p cs w))
  ]

one_further-list : (r : Option ℕ × List Child) (c : Child) → (one_further r c).1 ≡ c ∷ r.1
one_further-list (none, cs) c = refl
one_further-list (some n, cs) c = refl

claim-other :
    (p q : ℕ) (cs : List Child)
    → q ≢ p
    → is_registered q cs ≡ false
    → is_registered q (claim p cs).1 ≡ false
unfolding claim is_registered
claim-other p q [] n h = refl
claim-other p q (c ∷ cs) n h =
    let (m, h') = not_registered_cons {p = q} c cs h in
    elim (Bool-cases (c.pid == 0)) [
      | inl e ↦ rw e (not_registered q (record c { pid = p }) cs (omega arith) h')
      | inr e ↦
          rw (e, one_further-list (claim p cs) c)
            (not_registered q c (claim p cs).1 m (claim-other p q cs n h'))
    ]

claim-IsUnique :
    (p : ℕ) (cs : List Child) → is_registered p cs ≡ false → IsUnique cs → IsUnique (claim p cs).1
unfolding claim
claim-IsUnique p [] h u = tt
claim-IsUnique p (c ∷ cs) h (f, u) =
    let (m, h') = not_registered_cons {p = p} c cs h in
    elim (Bool-cases (c.pid == 0)) [
      | inl e ↦ rw e (inr h', u)
      | inr e ↦
          rw (e, one_further-list (claim p cs) c)
            (
              elim f [ inl z ↦ inl z | inr g ↦ inr (claim-other p c.pid cs m g) ],
              claim-IsUnique p cs h' u,
            )
    ]

find_free_child-IsUnique :
    (p : ℕ) (cs : List Child) → IsUnique cs → IsUnique (find_free_child p cs).1
unfolding find_free_child
find_free_child-IsUnique p cs u = elim (Bool-cases (is_registered p cs)) [
  | inl e ↦ rw e u
  | inr e ↦ rw e (claim-IsUnique p cs e u)
]

module _ (sys : Calls) (self : ℕ) where
  start_found-IsUnique :
      (r : Option ℕ × List Child) (s : Family)
      → IsUnique r.1
      → IsUnique (start_found sys r.0 r.1 s).1.children
  unfolding start_found
  start_found-IsUnique (none, cs) s u = u
  start_found-IsUnique (some n, cs) s u = IsUnique-Thins (start_at-Thins sys n cs s.world) u

  enter-IsUnique : (s : Family) → IsUnique s.children → IsUnique (enter sys self s).1.children
  unfolding enter
  enter-IsUnique s u =
      start_found-IsUnique (find_free_child self s.children) s
        (find_free_child-IsUnique self s.children u)

  start_child-IsUnique :
      (s : Family)
      → IsUnique s.children
      → IsUnique (start_child_debug_corruption sys self s).children
  unfolding start_child_debug_corruption
  start_child-IsUnique s u =
      let t = (enter sys self s).1 in
      elim (Bool-cases
        ((enter sys self s).0 && (ltb 1 (count_children t.children) && not t.is_father))) [
          | inl e ↦ rw e (enter-IsUnique (record t { is_father = true }) (enter-IsUnique s u))
          | inr e ↦ rw e (enter-IsUnique s u)
        ]

  -- Where no process stands twice in the table of children, none does after
  -- startChildMprotect, stopChildMprotect and mprotectDistribute,
  -- whatever the system answers.
  pub operations-IsUnique :
      (s : Family)
      → IsUnique s.children
      → IsUnique (start_child_mprotect sys self s).children
        × IsUnique (stop_child_mprotect sys self s).children
        × ((header : Ptr) (protects : Bool)
            → IsUnique (mprotect_distribute sys self header protects s).children)
  unfolding start_child_mprotect stop_child_mprotect stop_child_debug_corruption mprotect_distribute
  operations-IsUnique s u = (
    start_child-IsUnique s u,
    IsUnique-Thins (leave-Thins sys self s.children s.world) u,
    λ header protects. IsUnique-Thins (distribute_loop-Thins sys _ s.children s.world) u,
  )
