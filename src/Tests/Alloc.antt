-- ===== src/Tests/Alloc.antt =====
-- The theorems on one MMAP block at concrete inputs: the block of sixteen pages at address 65536 with
-- one busy block of a page between a free page and the free rest.
use vgc_malloc.Base.{
  Bool, ◌+◌, ◌-◌, ◌≡◌, ◌≢◌, refl, ◌<◌, ◌↔◌, ◌%◌, true, none, some, List, [], ◌∷◌, arith,
  int_of_size,
}
use vgc_malloc.Memory.{
  Run, ok, Ptr, null, State, MmapHeader, check_mark, free, busy, update, sizeof_malloc_header,
}
use vgc_malloc.Memory.Ends.{Ends}
use vgc_malloc.System.Laws.{Locks}
use vgc_malloc.Malloc.Block.{alloc_malloc_block, user_address, round_length}
use vgc_malloc.Malloc.Check.{check_mmap_block}
use vgc_malloc.Malloc.Release.{coalesce, page_of}
use vgc_malloc.Malloc.Address.{user_address_within, user_address_overrun, header_of_user_address}
use vgc_malloc.Chain.{Cell, cell, header, Blocks, span}
use vgc_malloc.Chain.Mmap.{IsMmap}
use vgc_malloc.Chain.Join.{Rewritten}
use vgc_malloc.Chain.Coalesce.{release_cell}
use vgc_malloc.Chain.Silent.{check_mmap_block-silent}
use vgc_malloc.Chain.Grant.{Granted, alloc_malloc_block-Granted}
use vgc_malloc.Chain.Free.{coalesce-Rewritten}
use vgc_malloc.Chain.Undo.{Restored, coalesce-IsCoalesced}
use vgc_malloc.Chain.RoundTrip.{IsCoalesced}
use vgc_malloc.Tests.{granting, fresh}

abbrev pub base : Ptr
base = 65536

abbrev pub top : MmapHeader
top = record {
  check_start = check_mark;
  size = 65536;
  max_size = 53248;
  elements = 1;
  prev = 0;
  next = 0;
  check_end = check_mark;
}

abbrev pub cells : List Cell
cells = cell 4096 free ∷ cell 4096 busy ∷ cell 28672 free ∷ []

abbrev headers : Blocks
headers =
    update
      (update (update (λ q. none) 69632 (some (header base 0 81920 (cell 4096 free)))) 81920
        (some (header base 69632 94208 (cell 4096 busy))))
      94208 (some (header base 81920 0 (cell 28672 free)))

abbrev pub sample : State
sample = record fresh {
  shared = record {
    pid = 7;
    page_size = 4096;
    mmap_block_first = base;
    mmap_block_count = 1;
    mmap_block_size = 65536;
    is_mprotect_enabled = true;
  };
  mapped = λ q. true;
  mmaps = update (λ q. none) base (some top);
  blocks = headers;
}

pub sample-IsMmap : IsMmap sample base top cells
sample-IsMmap = record {
  base = omega arith;
  here = refl;
  chain = (refl, (refl, (refl, tt)));
  nonempty = omega arith;
  filled = refl;
  max = refl;
  within = omega arith;
  bound = omega arith;
  mapped = λ q a b. refl;
  elements = refl;
  check_start = refl;
  check_end = refl;
}

pub granting-Locks : Locks granting
granting-Locks = record { granted = λ n m. refl }

alloc_malloc_block-Granted_example :
    Ends (Granted sample base top cells 100) (alloc_malloc_block granting base 100 sample)
alloc_malloc_block-Granted_example =
    alloc_malloc_block-Granted granting granting-Locks 100 refl sample-IsMmap

coalesce-IsCoalesced_example :
    Ends
      (λ _ t.
        (cells' : List Cell) × Restored sample base top cells' t
        × IsCoalesced cells'
        × (span cells' ≡ span cells))
      (coalesce granting 81920 sample)
coalesce-IsCoalesced_example =
    coalesce-IsCoalesced granting (cell 4096 free ∷ []) (cell 4096 busy) (cell 28672 free ∷ []) refl
      sample-IsMmap (refl, (refl, (refl, tt)))

coalesce-Rewritten_example :
    Ends
      (λ _ t.
        Rewritten sample base null 69632 131072
          (release_cell (cell 4096 free ∷ []) (cell 4096 busy) (cell 28672 free ∷ []))
          t)
      (coalesce granting 81920 sample)
coalesce-Rewritten_example =
    coalesce-Rewritten granting base 69632 sample (cell 4096 free ∷ []) (cell 4096 busy)
      (cell 28672 free ∷ []) 81920 refl sample-IsMmap.chain (omega arith) (λ x a b. refl)
      (omega arith)

check_mmap_block-silent_example :
    ◌≡◌ {A = Run Bool} (check_mmap_block "vgc_free" base sample) (ok true sample)
check_mmap_block-silent_example =
    check_mmap_block-silent "vgc_free" base top cells sample sample-IsMmap refl

user_address_within_example :
    (1000000 + sizeof_malloc_header < user_address true 4096 (int_of_size 100) 1000000)
    × (user_address true 4096 (int_of_size 100) 1000000 + 100
        ≡ 1000000 + sizeof_malloc_header + round_length true 4096 100)
user_address_within_example = user_address_within 1000000 100 (omega arith) (omega arith)

user_address_overrun_example :
    user_address true 4096 (int_of_size 8192) 1000000 + 8192
    ≡ 1000000 + sizeof_malloc_header + round_length true 4096 8192 + 4096
user_address_overrun_example = user_address_overrun 1000000 8192 (omega arith) refl

header_of_user_address_example :
    (page_of true 4096 (user_address true 4096 (int_of_size 4096) 81920) - sizeof_malloc_header
      ≡ 81920)
    ↔ (4096 % 4096 ≢ 0)
header_of_user_address_example = header_of_user_address 81920 4096 (omega arith) refl
