-- ===== src/Stacktrace.antt =====
-- src/vgc_stacktrace.c: which signals are handled and how, and which commands show a stack trace. What
-- addr2line answers is not part of the program. vgc_stacktraceSave is in Malloc.Block.
use vgc_malloc.Base.{
  ℕ, zero, suc, ◌-◌, Bool, true, false, ◌&&◌, ◌||◌, Option, none, some, List, [], ◌∷◌, ◌++◌, ◌==◌,
  if◌then◌else◌,
}
use vgc_malloc.Errno.{Message, message}
use vgc_malloc.Message.{Text, take, blank}

-- vgc_stacktraceInit: sigaction is called for each signal until it fails; what it answers is an
-- argument. The result, and what is printed.
unfoldable pub init_signals : (ℕ → Bool) → List ℕ → Bool × List Message
init_signals sigaction [] = (true, [])
init_signals sigaction (sig ∷ sigs) =
    let rest = init_signals sigaction sigs in
    if sigaction sig
    then rest
    else (false, message "sigaction" "Error" "initialising handler for signal" ∷ [])

abbrev pub sigsegv : ℕ
sigsegv = 11

unfoldable pub stacktrace_init : (ℕ → Bool) → Bool × List Message
unfolding init_signals
stacktrace_init sigaction = init_signals sigaction (sigsegv ∷ [])

-- What the handler vgc_stacktrace does: it shows the trace and resumes elsewhere, or sets the default
-- action and sends the signal again.
pub data Action : Type 0 where
  shows_trace raises_again : Action

-- SEGV_ACCERR, SEGV_BNDERR and SEGV_PKUERR
abbrev pub is_bounds_violation : ℕ → Bool
is_bounds_violation n = n == 2 || (n == 3 || n == 4)

-- The switch of vgc_stacktrace, for the number of the signal and its `si_code`, which SI_FROMUSER gives.
unfoldable pub handle_signal : (signal code : ℕ) → Action
handle_signal signal code =
    if signal == sigsegv && is_bounds_violation code then shows_trace else raises_again

-- strncmp with the length of the first text
abbrev pub starts_with : Text → Text → Bool
starts_with [] t = true
starts_with (c ∷ p) [] = false
starts_with (c ∷ p) (d ∷ t) = let rest = starts_with p t in if c == d then rest else false

-- /lib/, /lib64/ and /usr/lib64/
abbrev pub lib : Text
lib = 47 ∷ 108 ∷ 105 ∷ 98 ∷ 47 ∷ []

abbrev pub lib64 : Text
lib64 = 47 ∷ 108 ∷ 105 ∷ 98 ∷ 54 ∷ 52 ∷ 47 ∷ []

abbrev pub usr_lib64 : Text
usr_lib64 = 47 ∷ 117 ∷ 115 ∷ 114 ∷ lib64

abbrev pub is_system : Text → Bool
is_system t = starts_with lib t || (starts_with lib64 t || starts_with usr_lib64 t)

-- The text before and behind the first `c`, which strchr finds.
abbrev pub split_at : ℕ → Text → Option (Text × Text)
split_at c [] = none
split_at c (d ∷ t) =
    let rest = split_at c t in
    if c == d then some ([], t) else (elim rest [ none ↦ none | some (a, b) ↦ some (d ∷ a, b) ])

abbrev pub then_split : Option (Text × Text) → (Text → Text → Option Text) → Option Text
then_split none k = none
then_split (some (a, b)) k = k a b

-- The frame with blanks for `(`, `)` and `[`, up to `]`. `none` is where one is missing, and the
-- null pointer is written to.
unfoldable pub edit_frame : Text → Option Text
edit_frame t = then_split (split_at 40 t) λ a r. then_split (split_at 41 r) λ b r'.
    then_split (split_at 91 r') λ c r''.
      then_split (split_at 93 r'') λ d _. some (a ++ blank ∷ (b ++ blank ∷ (c ++ blank ∷ d)))

-- `ProcessPath`: the path up to the last `/`, and the name behind it.
pub record ProcessPath : Type 0 where
  pub directory : Text
  pub base : Text

-- The command for an edited frame. A frame of the program itself empties `base` in place, which leaves
-- the directory in the path, for this frame and those after it.
unfoldable pub frame_command : Text → ProcessPath → Text → Text × ProcessPath
frame_command addr2line self frame =
    if starts_with self.base frame
    then (take 1023 (addr2line ++ self.directory ++ frame), record self { base = [] })
    else (take 1023 (addr2line ++ frame), self)

-- The loop of stacktrace, on the frames from one on.
unfoldable pub trace_loop : Text → ProcessPath → List Text → Option (List Text)
unfolding edit_frame frame_command
trace_loop addr2line self [] = some []
trace_loop addr2line self (t ∷ ts) =
    let skipped = trace_loop addr2line self ts in
    if is_system t then skipped else (elim (edit_frame t) [
      | none ↦ none
      | some frame ↦
          (let (command, self') = frame_command addr2line self frame in
            elim (trace_loop addr2line self' ts) [ none ↦ none | some cs ↦ some (command ∷ cs) ])
    ])

abbrev pub drop_frames : ℕ → List Text → List Text
drop_frames zero ts = ts
drop_frames (suc n) [] = []
drop_frames (suc n) (t ∷ ts) = drop_frames n ts

abbrev pub take_frames : ℕ → List Text → List Text
take_frames zero ts = []
take_frames (suc n) [] = []
take_frames (suc n) (t ∷ ts) = t ∷ take_frames n ts

-- stacktrace: the frames from 3 to `size - 2`, as the commands that show them.
unfoldable pub stacktrace : Text → ProcessPath → List Text → (size : ℕ) → Option (List Text)
unfolding trace_loop
stacktrace addr2line self messages size =
    trace_loop addr2line self (take_frames (size - 1 - 3) (drop_frames 3 messages))

-- vgc_stacktraceShow, for the frames that backtrace_symbols gives; `none` is its null
unfoldable pub stacktrace_show :
    Text → ProcessPath → Option (List Text) → (size : ℕ) → Option (List Text)
unfolding stacktrace
stacktrace_show addr2line self symbols size =
    if size == 0
    then some []
    else (elim symbols [ none ↦ some [] | some messages ↦ stacktrace addr2line self messages size ])
