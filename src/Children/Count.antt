-- ===== src/Children/Count.antt =====
-- How many processes stand in the table of children.
use vgc_malloc.Base.{
  ℕ, zero, suc, ◌≡◌, ◌≢◌, refl, sym, ap, ◌∙◌, ◌⊎◌, inl, inr, true, false, Option, none, some, List,
  [], ◌∷◌, ◌==◌, arith, length, eqb_true, eqb_false, Bool-cases,
}
use vgc_malloc.Children.{Child, Calls, World, Family}
use vgc_malloc.Children.Table.{is_registered, claim, one_further, find_free_child, count_children}
use vgc_malloc.Children.Thread.{remove_child_thread}
use vgc_malloc.Children.Lifecycle.{
  clear_master, clear_children, init_child_debug_corruption, stop_all, stop_mprotect,
}

count-nil : count_children [] ≡ 0
unfolding count_children
count-nil = refl

count-used :
    (c : Child) (cs : List Child) → c.pid ≢ 0 → count_children (c ∷ cs) ≡ suc (count_children cs)
unfolding count_children
count-used c cs n = rw (eqb_false {a = c.pid} {b = 0} n) refl

count-free : (c : Child) (cs : List Child) → c.pid ≡ 0 → count_children (c ∷ cs) ≡ count_children cs
unfolding count_children
count-free c cs z = rw (eqb_true {a = c.pid} {b = 0} z) refl

eq_cases : (n : ℕ) → (n ≡ 0) ⊎ (n ≢ 0)
eq_cases zero = inl refl
eq_cases (suc n) = inr (omega arith)

-- Nothing is found, and the table is unchanged; or one process more stands in the table, with the pid
-- and no other entry changed.
abbrev Claimed : List Child → Option ℕ × List Child → Type 0
Claimed cs (none, ds) = (ds ≡ cs) × (count_children cs ≡ length cs)
Claimed cs (some n, ds) = count_children ds ≡ suc (count_children cs)

Claimed-used :
    (c : Child) (cs : List Child) (r : Option ℕ × List Child)
    → c.pid ≢ 0
    → Claimed cs r
    → Claimed (c ∷ cs) (one_further r c)
Claimed-used c cs (none, ds) n (e, full) = (ap (λ x. c ∷ x) e, count-used c cs n ∙ ap suc full)
Claimed-used c cs (some m, ds) n e = count-used c ds n ∙ ap suc e ∙ ap suc (sym (count-used c cs n))

claim-Claimed : (p : ℕ) (cs : List Child) → p ≢ 0 → Claimed cs (claim p cs)
unfolding claim
claim-Claimed p [] n = (refl, count-nil)
claim-Claimed p (c ∷ cs) n = elim (eq_cases c.pid) [
  | inl z ↦
      rw (eqb_true {a = c.pid} {b = 0} z)
        (count-used (record c { pid = p }) cs n ∙ ap suc (sym (count-free c cs z)))
  | inr u ↦
      rw (eqb_false {a = c.pid} {b = 0} u) (Claimed-used c cs (claim p cs) u (claim-Claimed p cs n))
]

clear_children-count : (cs : List Child) → count_children (clear_children cs) ≡ 0
unfolding clear_children
clear_children-count [] = count-nil
clear_children-count (c ∷ cs) = count-free _ (clear_children cs) refl ∙ clear_children-count cs

-- findFreeChild for a process other than 0: where it stands in the table, it gets no entry and the table
-- is unchanged; else it gets one exactly if the table is not full, and one process more stands in it.
find_free_child-Claimed :
    (pid : ℕ) (cs : List Child)
    → pid ≢ 0
    → (is_registered pid cs ≡ true → find_free_child pid cs ≡ (none, cs))
      × (is_registered pid cs ≡ false → Claimed cs (find_free_child pid cs))
unfolding find_free_child
find_free_child-Claimed pid cs n = (λ e. rw e refl, λ e. rw e (claim-Claimed pid cs n))

count-freed :
    (c : Child) (cs : List Child)
    → count_children cs ≡ 0
    → count_children (record c { pid = 0; thread = 0 } ∷ cs) ≡ 0
count-freed c cs e = count-free (record c { pid = 0; thread = 0 }) cs refl ∙ e

module _ (sys : Calls) where
  stop_all-count :
      (self : ℕ) (cs : List Child) (w : World) → count_children (stop_all sys self cs w).0 ≡ 0
  unfolding stop_all
  stop_all-count self [] w = count-nil
  stop_all-count self (c ∷ cs) w = elim (eq_cases c.pid) [
    | inl z ↦
        rw (eqb_true {a = c.pid} {b = 0} z)
          (count-free c (stop_all sys self cs w).0 z ∙ stop_all-count self cs w)
    | inr u ↦ rw (eqb_false {a = c.pid} {b = 0} u) (elim (Bool-cases (c.pid == self)) [
      | inl e ↦ rw e (count-freed c _ (stop_all-count self cs (clear_master sys c w).1))
      | inr e ↦ rw e (count-freed c _ (stop_all-count self cs (remove_child_thread sys c w).1))
    ])
  ]

  init-children :
      (s : Family) → (init_child_debug_corruption sys s).children ≡ clear_children s.children
  unfolding init_child_debug_corruption
  init-children s = ground arith

  -- stopMprotect empties the table, whatever the system answers: no process stands in it when it is
  -- unmapped. Nor does one after initChildDebugCorruption.
  pub stop_mprotect-count :
      (self : ℕ) (s : Family)
      → (count_children (stop_mprotect sys self s).0 ≡ 0)
        × (count_children (init_child_debug_corruption sys s).children ≡ 0)
  unfolding stop_mprotect
  stop_mprotect-count self s = (
    stop_all-count self s.children s.world,
    ap count_children (init-children s) ∙ clear_children-count s.children,
  )
