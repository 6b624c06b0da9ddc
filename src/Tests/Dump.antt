-- ===== src/Tests/Dump.antt =====
-- The dump, the start and the end of the library, and stack traces at concrete inputs.
use vgc_malloc.Base.{
  ℕ, List, ◌≢◌, ◌+◌, ◌≡◌, ◌<◌, refl, true, none, some, [], ◌∷◌, ◌++◌, ◌==◌, arith,
}
use mathlib.Core.Path.{subst}
use vgc_malloc.Memory.{null, ok, sizeof_mmap_header}
use vgc_malloc.Memory.Ends.{Ends}
use vgc_malloc.Message.{Text}
use vgc_malloc.Malloc.Sizes.{no_sizes}
use vgc_malloc.Malloc.Dump.{
  Line, Response, Traces, show_trace, put_headings, totals, add_lines, dump_mmap_block,
}
use vgc_malloc.Malloc.Shown.{Framed, AllFramed}
use vgc_malloc.Malloc.Stop.{my_fini}
use vgc_malloc.Stacktrace.{
  init_signals, stacktrace_init, handle_signal, shows_trace, edit_frame, frame_command, trace_loop,
  stacktrace,
}
use vgc_malloc.Chain.Dump.{cell_lines, cell_sizes, dump_mmap_block-lines}
use vgc_malloc.Tests.{granting, fresh}
use vgc_malloc.Tests.Alloc.{base, top, cells, sample, sample-IsMmap}

abbrev wide : Line → ℕ
wide l = 60

abbrev buffer : Response
buffer = record { lines = []; used = 0 }

-- `a(f)[9]`
abbrev frame : Text
frame = 97 ∷ 40 ∷ 102 ∷ 41 ∷ 91 ∷ 57 ∷ 93 ∷ []

-- Each trace has five frames.
abbrev named : Traces
named = record {
  symbols = λ xs. some (frame ∷ frame ∷ frame ∷ frame ∷ frame ∷ []);
  path = record { directory = 100 ∷ []; base = 97 ∷ [] };
  line = λ c. true;
}

named-Framed : Framed named
unfolding edit_frame
named-Framed = record {
  brackets =
      λ xs ts e. subst AllFramed (from_some e) (framed, (framed, (framed, (framed, (framed, tt)))));
  lines = λ c. refl;
}
  where
    framed : edit_frame frame ≢ none
    framed e = absurd (cc)

    from_some : {a b : List Text} → some a ≡ some b → a ≡ b
    from_some e = cc

dump_mmap_block-lines_example :
    let start = put_headings wide base 53248 buffer in
    let ls =
      cell_lines base 0 null (base + sizeof_mmap_header) cells
      ++ totals 65536 (cell_sizes base null (base + sizeof_mmap_header) cells no_sizes) in
    (dump_mmap_block wide (show_trace named) (some buffer) 500 base sample
      ≡ ok (some (add_lines wide 500 ls start).1) sample)
    × ((add_lines wide 500 ls start).1.used < 500)
dump_mmap_block-lines_example =
    dump_mmap_block-lines wide 500 named named-Framed base top cells sample buffer sample-IsMmap
      (omega arith)

-- Another process than the one that has loaded the library leaves it alone.
my_fini_run : my_fini granting wide named 8 65536 104 fresh ≡ ok tt fresh
unfolding my_fini
my_fini_run = refl

stacktrace_init_run : stacktrace_init (λ n. n == 11) ≡ (true, [])
unfolding stacktrace_init init_signals
stacktrace_init_run = refl

handle_signal_run : handle_signal 11 2 ≡ shows_trace
unfolding handle_signal
handle_signal_run = refl

edit_frame_run : edit_frame frame ≡ some (97 ∷ 32 ∷ 102 ∷ 32 ∷ 32 ∷ 57 ∷ [])
unfolding edit_frame
edit_frame_run = refl

-- A frame without brackets is written through a null pointer.
edit_frame_fault : edit_frame (97 ∷ []) ≡ none
unfolding edit_frame
edit_frame_fault = refl

-- The program `a` in the directory `d`: the second frame is of another file, and still gets the
-- directory.
stacktrace_run :
    stacktrace []
      (record { directory = 100 ∷ []; base = 97 ∷ [] })
      ([] ∷ [] ∷ [] ∷ frame ∷ (98 ∷ frame) ∷ [])
      6
    ≡ some (
        (100 ∷ 97 ∷ 32 ∷ 102 ∷ 32 ∷ 32 ∷ 57 ∷ [])
        ∷ (100 ∷ 98 ∷ 97 ∷ 32 ∷ 102 ∷ 32 ∷ 32 ∷ 57 ∷ [])
        ∷ [])
unfolding stacktrace trace_loop edit_frame frame_command
stacktrace_run = refl
