-- ===== src/Tests/Race.antt =====
-- The theorems on two threads at concrete inputs.
use vgc_malloc.Base.{refl, some, [], arith, inl}
use vgc_malloc.Memory.{State}
use vgc_malloc.System.{System}
use vgc_malloc.System.Laws.{Answers}
use vgc_malloc.Malloc.Entry.{entering, ready, Reach}
use vgc_malloc.Heap.{IsHeap}
use vgc_malloc.Heap.Made.{Lost}
use vgc_malloc.Heap.Race.{malloc-race}
use vgc_malloc.Tests.{granting, fresh}

-- Each thread gets an address of its own.
abbrev low : System
low = record granting { mmap = λ n len. some 1048576 }

abbrev high : System
high = record granting { mmap = λ n len. some 2097152 }

low-Answers : Answers low
low-Answers = record {
  locks = record { granted = λ n m. refl };
  unlocked = λ n m. refl;
  made = λ n m. refl;
  attr_made = λ n m. refl;
  robust = λ n m. refl;
  pshared = λ n m. refl;
  typed = λ n m. refl;
}

high-Answers : Answers high
high-Answers = record {
  locks = record { granted = λ n m. refl };
  unlocked = λ n m. refl;
  made = λ n m. refl;
  attr_made = λ n m. refl;
  robust = λ n m. refl;
  pshared = λ n m. refl;
  typed = λ n m. refl;
}

empty : IsHeap fresh []
empty = record { regions = tt; first = refl; count = refl }

malloc-race_example :
    (t : State) × Reach low high
      (record { one = entering; two = entering; mem = fresh })
      (record { one = ready; two = ready; mem = t })
    × Lost fresh 1048576 2097152 t
malloc-race_example =
    malloc-race low high low-Answers high-Answers 1048576 2097152 fresh empty (λ c. refl)
      (λ c. refl) (omega arith) (omega arith) (inl (omega arith)) (omega arith) (omega arith)
      (omega arith)
