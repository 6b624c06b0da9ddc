-- ===== src/Malloc/Shown.antt =====
-- vgc_stacktraceShow ends where backtrace_symbols and addr2line answer as they are documented.
use vgc_malloc.Base.{
  ℕ, zero, suc, ◌-◌, ◌≡◌, ◌≢◌, refl, ◌∙◌, ap, Bool, true, Option, none, some, List, [], ◌∷◌, ◌==◌,
  inl, inr, Bool-cases, if◌then◌else◌,
}
use vgc_malloc.Memory.{Ptr, State, M, ok, fault}
use vgc_malloc.Message.{Text}
use vgc_malloc.Stacktrace.{
  ProcessPath, is_system, edit_frame, frame_command, trace_loop, drop_frames, take_frames,
  stacktrace, stacktrace_show,
}
use vgc_malloc.Malloc.Dump.{Traces, all_lines, addr2line, count, run_commands, show_trace}

-- vgc_stacktraceShow ends at each header, and changes nothing.
abbrev pub Shows : (Ptr → M (Unit {0})) → Type 0
Shows show = (p : Ptr) (s : State) → show p s ≡ ok tt s

-- Each text has the brackets `(`, `)`, `[` and `]`, in this order.
abbrev pub AllFramed : List Text → Type 0
AllFramed [] = Unit {0}
AllFramed (t ∷ ts) = (edit_frame t ≢ none) × AllFramed ts

-- backtrace_symbols gives frames with brackets, and addr2line prints a line for each command.
pub record Framed (tr : Traces) : Type 0 where
  pub brackets : (xs : List ℕ) (ts : List Text) → tr.symbols xs ≡ some ts → AllFramed ts
  pub lines : (c : Text) → tr.line c ≡ true

Framed-drop : (n : ℕ) (ts : List Text) → AllFramed ts → AllFramed (drop_frames n ts)
Framed-drop zero ts f = f
Framed-drop (suc n) [] f = tt
Framed-drop (suc n) (t ∷ ts) f = Framed-drop n ts f.1

Framed-take : (n : ℕ) (ts : List Text) → AllFramed ts → AllFramed (take_frames n ts)
Framed-take zero ts f = tt
Framed-take (suc n) [] f = tt
Framed-take (suc n) (t ∷ ts) f = (f.0, Framed-take n ts f.1)

given : {A : Type 0} (o : Option A) → o ≢ none → (a : A) × (o ≡ some a)
given none f = absurd (f refl)
given (some a) f = (a, refl)

trace_loop_total :
    (a : Text) (self : ProcessPath) (ts : List Text)
    → AllFramed ts
    → (cs : List Text) × (trace_loop a self ts ≡ some cs)
unfolding trace_loop
trace_loop_total a self [] f = ([], refl)
trace_loop_total a self (t ∷ ts) (f, fs) = elim (Bool-cases (is_system t)) [
  | inl e ↦ rw e (trace_loop_total a self ts fs)
  | inr e ↦
      let (frame, g) = given (edit_frame t) f in
      let (cs, h) = trace_loop_total a (frame_command a self frame).1 ts fs in
      rw (e, g, h) (_, refl)
]

all_lines-true :
    (line : Text → Bool) (cs : List Text) → ((c : Text) → line c ≡ true) → all_lines line cs ≡ true
all_lines-true line [] h = refl
all_lines-true line (c ∷ cs) h = rw (h c) (all_lines-true line cs h)

module _ (tr : Traces) (framed : Framed tr) where
  show_total :
      (a : Text) (xs : List ℕ) (n : ℕ)
      → (cs : List Text) × (stacktrace_show a tr.path (tr.symbols xs) n ≡ some cs)
  unfolding stacktrace_show stacktrace
  show_total a xs n = by_answer (tr.symbols xs) refl
    where
      by_answer :
          (o : Option (List Text))
          → tr.symbols xs ≡ o
          → (cs : List Text) × (stacktrace_show a tr.path o n ≡ some cs)
      by_answer none e = elim (Bool-cases (n == 0)) [
        | inl z ↦ rw z (_, refl)
        | inr z ↦ rw z (_, refl)
      ]
      by_answer (some ts) e = elim (Bool-cases (n == 0)) [
        | inl z ↦ rw z (_, refl)
        | inr z ↦ rw z (
            trace_loop_total a tr.path (take_frames (n - 1 - 3) (drop_frames 3 ts)) (
              Framed-take (n - 1 - 3) (drop_frames 3 ts)
                (Framed-drop 3 ts (framed.brackets xs ts e))))
      ]

  pub show_trace-Shows : Shows (show_trace tr)
  unfolding show_trace
  show_trace-Shows p s =
      let (cs, e) = show_total addr2line (s.traces p) (count (s.traces p)) in
      ap (λ o. run_commands tr.line o s) e
      ∙ ap (λ b. if b then ok tt s else fault) (all_lines-true tr.line cs framed.lines)
