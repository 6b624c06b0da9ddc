-- ===== src/Tests/Public.antt =====
-- The theorems on the public functions at concrete inputs.
use vgc_malloc.Base.{◌+◌, ◌≡◌, refl, ◌<◌, ◌≤◌, ◌⊎◌, none, some, List, [], ◌∷◌, length, arith}
use vgc_malloc.Memory.{Ptr, null, State, MmapHeader, free, busy, update, ◌>>=◌, ◌>>◌, Run, fault}
use vgc_malloc.Memory.Ends.{Ends}
use vgc_malloc.System.{System}
use vgc_malloc.System.Laws.{Answers}
use vgc_malloc.Malloc.Region.{free_mmap}
use vgc_malloc.Malloc.Release.{vgc_free}
use vgc_malloc.Malloc.Api.{malloc}
use vgc_malloc.Malloc.Faults.{malloc_twice-fault, free_mmap-refused}
use vgc_malloc.Chain.{Cell, cell, header, Blocks}
use vgc_malloc.Chain.Mmap.{IsMmap}
use vgc_malloc.Chain.FirstFit.{Allocated}
use vgc_malloc.Chain.Coalesce.{release_cell, join_prev}
use vgc_malloc.Chain.Join.{join_next}
use vgc_malloc.Chain.Regain.{Regained, malloc-vgc_free}
use vgc_malloc.Chain.Fresh.{fresh_cells, Made, alloc_mmap-Made}
use vgc_malloc.Chain.Fresh
use vgc_malloc.Chain.First.{with_first}
use vgc_malloc.Chain.Started.{initialize_shared-malloc}
use vgc_malloc.Malloc.Start.{started, initialize_shared}
use vgc_malloc.Base.{◌==◌, if◌then◌else◌}
use vgc_malloc.Tests.{granting, fresh}
use vgc_malloc.Tests.Alloc.{base, top, cells, sample, sample-IsMmap, granting-Locks}

malloc-vgc_free_example :
    Ends
      (λ _ t. Regained sample base top cells t)
      ((do a ← malloc granting 5000; vgc_free granting a) sample)
malloc-vgc_free_example =
    malloc-vgc_free granting base sample 5000 granting-Locks refl refl refl refl (omega arith)
      (omega arith) (omega arith) (omega arith) sample-IsMmap (refl, (refl, (refl, tt)))
      (refl, (refl, (refl, tt))) (omega arith) (λ (_, (_, (nofit, _))). ground (arith, nofit))

-- Two blocks in use before the free rest.
abbrev pub pair : List Cell
pair = cell 4096 busy ∷ cell 4096 busy ∷ cell 28672 free ∷ []

abbrev pub pair_top : MmapHeader
pair_top = record top { elements = 2 }

abbrev pair_headers : Blocks
pair_headers =
    update
      (update (update (λ q. none) 69632 (some (header base 0 81920 (cell 4096 busy)))) 81920
        (some (header base 69632 94208 (cell 4096 busy))))
      94208 (some (header base 81920 0 (cell 28672 free)))

abbrev pub paired : State
paired = record sample { mmaps = update (λ q. none) base (some pair_top); blocks = pair_headers }

pub paired-IsMmap : IsMmap paired base pair_top pair
paired-IsMmap = record {
  base = omega arith;
  here = refl;
  chain = (refl, (refl, (refl, tt)));
  nonempty = omega arith;
  filled = refl;
  max = refl;
  within = omega arith;
  bound = omega arith;
  mapped = λ q a b. refl;
  elements = refl;
  check_start = refl;
  check_end = refl;
}

pub pair_two :
    1 < length (release_cell (cell 4096 busy ∷ []) (cell 4096 busy) (cell 28672 free ∷ []))
unfolding release_cell join_prev join_next
pair_two = omega arith

granting-Answers : Answers granting
granting-Answers = record {
  locks = granting-Locks;
  unlocked = λ n m. refl;
  made = λ n m. refl;
  attr_made = λ n m. refl;
  robust = λ n m. refl;
  pshared = λ n m. refl;
  typed = λ n m. refl;
}

abbrev refusing : System
refusing = record granting { mmap = λ n len. none }

malloc_twice-fault_example :
    ◌≡◌ {A = Run Ptr} ((do _ ← malloc refusing 10; malloc refusing 20) fresh) fault
malloc_twice-fault_example =
    malloc_twice-fault refusing (λ n len. refl) 10 20 fresh refl refl (omega arith)

free_mmap-refused_example :
    Ends
      (λ _ t.
        (t.shared.mmap_block_first ≡ null)
        × ((x : Ptr)
            → (x < base) ⊎ (base + 65536 ≤ x)
            → (t.blocks x ≡ sample.blocks x) × (t.mmaps x ≡ sample.mmaps x)))
      ((do free_mmap granting base; vgc_free granting 200000) sample)
free_mmap-refused_example =
    free_mmap-refused granting granting-Locks base 200000 sample refl refl refl (omega arith)

-- mmap gives one area for an MMAP block and another for VGC_shared.
abbrev starting : System
starting = record granting { mmap = λ n len. some (if len == 32768000 then 1048576 else 65536) }

starting-Answers : Answers starting
starting-Answers = record {
  locks = record { granted = λ n m. refl };
  unlocked = λ n m. refl;
  made = λ n m. refl;
  attr_made = λ n m. refl;
  robust = λ n m. refl;
  pshared = λ n m. refl;
  typed = λ n m. refl;
}

initialize_shared-malloc_example :
    Ends
      (λ a t.
        (u : State) × (u.shared ≡ with_first (started 4096) 1048576)
        × IsMmap u 1048576 (Fresh.fresh 32768000) (fresh_cells 32768000)
        × Allocated u 1048576 (Fresh.fresh 32768000) (fresh_cells 32768000) 100 a t)
      ((do _ ← initialize_shared starting 104 4096; malloc starting 100) fresh)
initialize_shared-malloc_example =
    initialize_shared-malloc starting 104 65536 1048576 100 fresh starting-Answers refl
      (omega arith) (λ n. refl) (omega arith) (omega arith) (omega arith) (omega arith)
