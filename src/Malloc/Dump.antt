-- ===== src/Malloc/Dump.antt =====
-- dumpMmapBlock of src/vgc_malloc.c: the blocks are written line by line into a
-- buffer of the caller, or printed where there is none. The length of a line's text is an argument, and
-- what is printed at INFO_LEVEL is left out.
use vgc_malloc.Base.{
  ℕ, zero, suc, ◌+◌, ◌-◌, Bool, true, false, not, Option, none, some, List, [], ◌∷◌, ◌++◌, ◌==◌,
  leb, if◌then◌else◌, add64, sub64, int_of_size,
}
use vgc_malloc.Memory.{
  Ptr, null, sizeof_mmap_header, MallocHeader, M, ok, fault, is_free, out_of_fuel, pure, ◌>>=◌,
  ◌>>◌, when, get_shared, load_mmap, load_block,
}
use vgc_malloc.Message.{Text}
use vgc_malloc.Stacktrace.{ProcessPath, stacktrace_show}
use vgc_malloc.Malloc.Sizes.{Sizes, no_sizes, add_block, first_malloc_header}

-- The five sums at the end of a dump.
pub data Total : Type 0 where
  allocated busy_total free_total both_total max_total : Total

-- What a line is printed from.
pub data Line : Type 0 where
  title : Ptr → Line
  heading rule : Line
  block : ℕ → Ptr → MallocHeader → Line  -- the index, the address and the header
  total : Total → ℕ → Line
  last_rule : Line

-- The caller's buffer: its lines, and the length of its text.
pub record Response : Type 0 where
  pub lines : List Line
  pub used : ℕ

-- The size of the buffer that a line is printed into first.
abbrev pub room_of : Line → ℕ
room_of (block i p b) = 200
room_of _ = 100

-- The length of a text of `w` characters that snprintf has cut to `n` bytes.
abbrev pub cut : ℕ → ℕ → ℕ
cut n w = if leb n w then n - 1 else w

-- The seven lines behind the blocks.
abbrev pub totals : (mmap_block_size : ℕ) → Sizes → List Line
totals n z =
    rule
    ∷ total allocated (int_of_size n)
    ∷ total busy_total (int_of_size z.busy)
    ∷ total free_total (int_of_size z.free)
    ∷ total both_total (int_of_size (add64 z.busy z.free))
    ∷ total max_total (int_of_size (sub64 (sub64 n sizeof_mmap_header) z.headers))
    ∷ last_rule
    ∷ []

-- What the stack traces are shown with: backtrace_symbols, the path of the process, and whether what
-- addr2line prints for a command is a line.
pub record Traces : Type 0 where
  pub symbols : List ℕ → Option (List Text)
  pub path : ProcessPath
  pub line : Text → Bool

abbrev pub all_lines : (Text → Bool) → List Text → Bool
all_lines line [] = true
all_lines line (c ∷ cs) = let rest = all_lines line cs in if line c then rest else false

abbrev pub count : List ℕ → ℕ
count [] = 0
count (x ∷ xs) = suc (count xs)

-- `addr2line -Cfipe `
abbrev pub addr2line : Text
addr2line =
    97 ∷ 100 ∷ 100 ∷ 114 ∷ 50 ∷ 108 ∷ 105 ∷ 110 ∷ 101 ∷ 32 ∷ 45 ∷ 67 ∷ 102 ∷ 105 ∷ 112 ∷ 101 ∷ 32
    ∷ []

-- The commands are run: a fault where one is not built, or what addr2line prints has no newline.
abbrev pub run_commands : (Text → Bool) → Option (List Text) → M (Unit {0})
run_commands line none s = fault
run_commands line (some cs) s = if all_lines line cs then ok tt s else fault

-- vgc_stacktraceShow
unfoldable pub show_trace : Traces → Ptr → M (Unit {0})
show_trace tr p s =
    run_commands tr.line
      (stacktrace_show addr2line tr.path (tr.symbols (s.traces p)) (count (s.traces p))) s

module _ (width : Line → ℕ) where
  -- The first three lines are cut to the maximal size of the block, and written unchecked.
  abbrev pub put : (max_size : ℕ) → Line → Response → Response
  put max_size l r = record { lines = r.lines ++ l ∷ []; used = r.used + cut max_size (width l) }

  abbrev pub put_headings : Ptr → (max_size : ℕ) → Response → Response
  put_headings m max_size r = put max_size rule (put max_size heading (put max_size (title m) r))

  -- A line is added if it and its terminator have room; false where the function returns.
  abbrev pub add_line : (size : ℕ) → Line → Response → Bool × Response
  add_line size l r =
      let n = r.used + cut (room_of l) (width l) in
      if leb size n then (false, r) else (true, record { lines = r.lines ++ l ∷ []; used = n })

  unfoldable pub add_lines : (size : ℕ) → List Line → Response → Bool × Response
  add_lines size [] r = (true, r)
  add_lines size (l ∷ ls) r =
      let (b, r') = add_line size l r in
      let rest = add_lines size ls r' in if b then rest else (false, r')

  -- The same on the caller's buffer, if there is one.
  abbrev pub add_to : (size : ℕ) → List Line → Option Response → Bool × Option Response
  add_to size ls none = (true, none)
  add_to size ls (some r) = let (b, r') = add_lines size ls r in (b, some r')

  -- The loop over the blocks: false where the function returns. `show` is vgc_stacktraceShow.
  unfoldable pub dump_loop :
      (Ptr → M (Unit {0}))
      → ℕ
      → (size i : ℕ) → Ptr
      → Sizes
      → Option Response
      → M (Bool × Option Response × Sizes)
  dump_loop show zero size i p z r = λ _. out_of_fuel
  dump_loop show (suc k) size i p z r = if p == null then pure (true, r, z) else do
    b ← load_block p
    let (more, r') = add_to size (block i p b ∷ []) r
    if not more then pure (false, r', add_block b z) else do
      when (not (is_free b.status)) (show p)
      dump_loop show k size (suc i) b.next (add_block b z) r'

  abbrev pub start_response : Ptr → (max_size : ℕ) → Option Response → Option Response
  start_response m max_size none = none
  start_response m max_size (some r) = some (put_headings m max_size r)

  -- dumpMmapBlock
  unfoldable pub dump_mmap_block :
      (Ptr → M (Unit {0})) → Option Response → (size : ℕ) → Ptr → M (Option Response)
  dump_mmap_block show r size m = if m == null then pure r else do
    h ← load_mmap m
    sh ← get_shared
    let started = start_response m h.max_size r
    (more, r', z) ←
        dump_loop show (suc sh.mmap_block_size) size 0 (first_malloc_header m) no_sizes started
    if not more then pure r' else pure (add_to size (totals sh.mmap_block_size z) r').1

-- vgc_stacktraceShow where it ends: what it prints is at INFO_LEVEL.
abbrev pub quiet : Ptr → M (Unit {0})
quiet p = pure tt

-- `dumpMmapBlock(0, 0, …)`: the lines are printed, and none is measured against a buffer. The stack
-- traces of the blocks are taken to be shown without a fault.
unfoldable pub dump_printed : Ptr → M (Unit {0})
dump_printed m = do _ ← dump_mmap_block (λ _. 0) quiet none 0 m; pure tt
