-- ===== src/Children/Entry.antt =====
-- A process enters the table of children when it starts, and leaves it when it stops.
use vgc_malloc.Base.{
  ℕ, zero, suc, ◌≡◌, ◌≢◌, refl, sym, ap, ◌∙◌, ◌⊎◌, inl, inr, Bool, true, false, ◌&&◌, not, ltb,
  Option, none, some, List, [], ◌∷◌, ◌==◌, arith, eqb_true, eqb_false, Bool-cases,
}
use vgc_malloc.Children.{Child, Calls, World, Family}
use vgc_malloc.Children.Table.{is_registered, claim, one_further, find_free_child, count_children}
use vgc_malloc.Children.Thread.{start_child_thread, start_at, remove_child_thread}
use vgc_malloc.Children.Lifecycle.{
  start_found, enter, leave, start_child_debug_corruption, stop_child_debug_corruption,
  start_child_mprotect, stop_child_mprotect,
}
use vgc_malloc.Children.Unique.{not_registered_cons}

registered_cons :
    (p : ℕ) (c d : Child) (cs ds : List Child)
    → c.pid ≡ d.pid
    → is_registered p cs ≡ is_registered p ds
    → is_registered p (c ∷ cs) ≡ is_registered p (d ∷ ds)
unfolding is_registered
registered_cons p c d cs ds e f = rw (e, f) refl

-- startChildThread leaves the pid alone.
same_pid : (sys : Calls) (c : Child) (w : World) → (start_child_thread sys c w).1.pid ≡ c.pid
unfolding start_child_thread
same_pid sys c w = ground arith

-- The processes and the threads of a table; the sockets are left out.
abbrev pub entries : List Child → List (ℕ × ℕ)
entries [] = []
entries (c ∷ cs) = (c.pid, c.thread) ∷ entries cs

and_left : (a b : Bool) → (a && b) ≡ true → a ≡ true
and_left true b e = refl
and_left false b e = e

-- An entry that findFreeChild has found holds the pid.
abbrev Found : ℕ → Option ℕ × List Child → Type 0
Found p r = (n : ℕ) → r.0 ≡ some n → is_registered p r.1 ≡ true

one_further-Found :
    (p : ℕ) (r : Option ℕ × List Child) (c : Child) → Found p r → Found p (one_further r c)
unfolding is_registered
one_further-Found p (none, cs) c f n e = absurd (ground (arith, e))
one_further-Found p (some m, cs) c f n e = rw (f m refl) (ground arith)

claim-Found : (p : ℕ) (cs : List Child) → Found p (claim p cs)
unfolding claim is_registered
claim-Found p [] = λ n e. absurd (ground (arith, e))
claim-Found p (c ∷ cs) = elim (Bool-cases (c.pid == 0)) [
  | inl z ↦ λ n e. rw (z, eqb_true {a = p} {b = p} refl) refl
  | inr z ↦ rw z (one_further-Found p (claim p cs) c (claim-Found p cs))
]

find_free_child-Found : (p : ℕ) (cs : List Child) → Found p (find_free_child p cs)
unfolding find_free_child
find_free_child-Found p cs = elim (Bool-cases (is_registered p cs)) [
  | inl e ↦ rw e λ n h. absurd (ground (arith, h))
  | inr e ↦ rw e (claim-Found p cs)
]

-- The free entries have no thread, as removeChildThread and initChildDebugCorruption leave them.
abbrev pub IsClean : List Child → Type 0
IsClean [] = Unit {0}
IsClean (c ∷ cs) = (c.pid ≡ 0 → c.thread ≡ 0) × IsClean cs

eq_cases : (n : ℕ) → (n ≡ 0) ⊎ (n ≢ 0)
eq_cases zero = inl refl
eq_cases (suc n) = inr (omega arith)

module _ (sys : Calls) where
  start_at-registered :
      (p n : ℕ) (cs : List Child) (w : World)
      → is_registered p (start_at sys n cs w).1 ≡ is_registered p cs
  unfolding start_at
  start_at-registered p n [] w = refl
  start_at-registered p zero (c ∷ cs) w =
      registered_cons p (start_child_thread sys c w).1 c cs cs (same_pid sys c w) refl
  start_at-registered p (suc n) (c ∷ cs) w =
      registered_cons p c c (start_at sys n cs w).1 cs refl (start_at-registered p n cs w)

  start_found-registered :
      (p : ℕ) (r : Option ℕ × List Child) (s : Family)
      → Found p r
      → (start_found sys r.0 r.1 s).0 ≡ true
      → is_registered p (start_found sys r.0 r.1 s).1.children ≡ true
  unfolding start_found
  start_found-registered p (none, cs) s h e = absurd (ground (arith, e))
  start_found-registered p (some n, cs) s h e = start_at-registered p n cs s.world ∙ h n refl

  enter-registered :
      (p : ℕ) (s : Family)
      → (enter sys p s).0 ≡ true
      → is_registered p (enter sys p s).1.children ≡ true
  unfolding enter
  enter-registered p s =
      start_found-registered p (find_free_child p s.children) s (find_free_child-Found p s.children)

  enter_again :
      (p : ℕ) (s : Family) → is_registered p s.children ≡ true → enter sys p s ≡ (false, s)
  unfolding enter find_free_child start_found
  enter_again p s h = rw h refl

  -- The father's thread is never started: whatever the system answers, startChildDebugCorruption does
  -- to the table and outside of it what findFreeChild and startChildThread for the process itself do.
  -- The second findFreeChild is for the same process, and finds it in the table.
  pub start_child-enter :
      (self : ℕ) (s : Family)
      → ((start_child_debug_corruption sys self s).children ≡ (enter sys self s).1.children)
        × ((start_child_debug_corruption sys self s).world ≡ (enter sys self s).1.world)
  unfolding start_child_debug_corruption
  start_child-enter self s =
      let (b, t) = enter sys self s in
      elim (Bool-cases (b && (ltb 1 (count_children t.children) && not t.is_father))) [
        | inl e ↦
            rw
              (
                e,
                enter_again self (record t { is_father = true })
                    (enter-registered self s (and_left b _ e)),
              )
              (refl, refl)
        | inr e ↦ rw e (refl, refl)
      ]

  -- What startChildThread leaves of the table.
  abbrev started : Option ℕ × List Child → World → List Child
  started (none, cs) w = cs
  started (some n, cs) w = (start_at sys n cs w).1

  started-one_further :
      (r : Option ℕ × List Child) (c : Child) (w : World)
      → started (one_further r c) w ≡ c ∷ started r w
  unfolding start_at
  started-one_further (none, cs) c w = refl
  started-one_further (some n, cs) c w = refl

  start_found-started :
      (r : Option ℕ × List Child) (s : Family)
      → (start_found sys r.0 r.1 s).1.children ≡ started r s.world
  unfolding start_found
  start_found-started (none, cs) s = refl
  start_found-started (some n, cs) s = refl

  enter-started :
      (p : ℕ) (s : Family)
      → is_registered p s.children ≡ false
      → (enter sys p s).1.children ≡ started (claim p s.children) s.world
  unfolding enter find_free_child
  enter-started p s h = rw h (start_found-started (claim p s.children) s)

  leave-head :
      (p : ℕ) (c : Child) (cs : List Child) (v : World)
      → c.pid ≡ p
      → (leave sys p (c ∷ cs) v).0 ≡ record c { pid = 0; thread = 0 } ∷ cs
  unfolding leave remove_child_thread
  leave-head p c cs v e = rw (eqb_true e) refl

  leave-tail :
      (p : ℕ) (c : Child) (cs : List Child) (v : World)
      → c.pid ≢ p
      → (leave sys p (c ∷ cs) v).0 ≡ c ∷ (leave sys p cs v).0
  unfolding leave
  leave-tail p c cs v e = rw (eqb_false e) refl

  claim-leave :
      (p : ℕ) (cs : List Child) (w v : World)
      → IsClean cs
      → is_registered p cs ≡ false
      → entries (leave sys p (started (claim p cs) w) v).0 ≡ entries cs
  unfolding claim start_at leave
  claim-leave p [] w v clean h = refl
  claim-leave p (c ∷ cs) w v (k, clean) h =
      let (m, h') = not_registered_cons {p = p} c cs h in
      elim (eq_cases c.pid) [
        | inl z ↦
            let c' = record c { pid = p } in
            rw (eqb_true {a = c.pid} {b = 0} z) (
              ap entries (leave-head p (start_child_thread sys c' w).1 cs v (same_pid sys c' w))
              ∙ λ i. (sym z i, sym (k z) i) ∷ entries cs)
        | inr n ↦
            rw (eqb_false {a = c.pid} {b = 0} n, started-one_further (claim p cs) c w)
              (ap entries (leave-tail p c (started (claim p cs) w) v m)
                ∙ ap (λ es. (c.pid, c.thread) ∷ es) (claim-leave p cs w v clean h'))
      ]

  -- A process that enters the table and leaves it restores its processes and threads: where it does not
  -- stand in the table and the free entries have no thread, stopChildMprotect after startChildMprotect
  -- gives back the pid and the thread of each entry, whatever the system answers, also where the
  -- table is full or no thread is created.
  pub start_child-stop_child :
      (self : ℕ) (s : Family)
      → IsClean s.children
      → is_registered self s.children ≡ false
      → entries (stop_child_mprotect sys self (start_child_mprotect sys self s)).children
        ≡ entries s.children
  unfolding start_child_mprotect stop_child_mprotect stop_child_debug_corruption
  start_child-stop_child self s clean h =
      let t = start_child_debug_corruption sys self s in
      ap (λ cs. entries (leave sys self cs t.world).0)
        ((start_child-enter self s).0 ∙ enter-started self s h)
      ∙ claim-leave self s.children s.world t.world clean h
