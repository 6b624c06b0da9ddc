-- ===== src/Tests/Heap.antt =====
-- The theorems on the list of MMAP blocks at concrete inputs.
use vgc_malloc.Base.{◌≡◌, refl, inl, inr, none, some, List, [], ◌∷◌, arith}
use vgc_malloc.Memory.{Ptr, null, MmapHeader, State, ok, free, busy, update}
use vgc_malloc.Memory.Ends.{Ends}
use vgc_malloc.System.{System}
use vgc_malloc.System.Laws.{Answers}
use vgc_malloc.Malloc.Check.{is_in_mmap_block}
use vgc_malloc.Malloc.Release.{vgc_free}
use vgc_malloc.Malloc.Api.{malloc}
use vgc_malloc.Chain.{Cell, cell, header}
use vgc_malloc.Chain.Coalesce.{release_cell, join_prev}
use vgc_malloc.Chain.Join.{join_next}
use vgc_malloc.Chain.Released.{Released, one_less}
use vgc_malloc.Heap.{Region, region, Regions, IsHeap}
use vgc_malloc.Heap.Malloc.{Gave, malloc-Gave}
use vgc_malloc.Heap.Inside.{contains, is_in_mmap_block-contains}
use vgc_malloc.Heap.Free.{vgc_free-IsHeap}
use vgc_malloc.Heap.Unlink.{back, unlinked}
use vgc_malloc.Heap.Unmap.{vgc_free-unlinked, vgc_free-first}
use vgc_malloc.Tests.{granting}
use vgc_malloc.Tests.Alloc.{base, top, cells, sample, sample-IsMmap, granting-Locks}
use vgc_malloc.Tests.Public.{pair, pair_top, paired, paired-IsMmap, pair_two}

abbrev giving : System
giving = record granting { mmap = λ n len. some 1048576 }

giving-Answers : Answers giving
giving-Answers = record {
  locks = record { granted = λ n m. refl };
  unlocked = λ n m. refl;
  made = λ n m. refl;
  attr_made = λ n m. refl;
  robust = λ n m. refl;
  pshared = λ n m. refl;
  typed = λ n m. refl;
}

abbrev pub region_list : List Region
region_list = region base top cells ∷ []

pub sample-IsHeap : IsHeap sample region_list
sample-IsHeap = record { regions = (sample-IsMmap, refl, refl, tt, tt); first = refl; count = refl }

paired-IsHeap : IsHeap paired (region base pair_top pair ∷ [])
paired-IsHeap = record { regions = (paired-IsMmap, refl, refl, tt, tt); first = refl; count = refl }

malloc-Gave_example :
    Ends
      (λ a t.
        Gave sample 1048576 (region base top cells) [] 100 a t × ((qs : List Region) × IsHeap t qs))
      (malloc giving 100 sample)
malloc-Gave_example =
    malloc-Gave giving giving-Answers 1048576 sample (region base top cells) [] 100 refl
      sample-IsHeap (λ c. refl) (inr (omega arith), tt) (omega arith) (omega arith) (omega arith)
      (omega arith)

is_in_mmap_block-contains_example :
    is_in_mmap_block 70000 sample ≡ ok (contains 65536 70000 (region base top cells ∷ [])) sample
is_in_mmap_block-contains_example = is_in_mmap_block-contains 70000 sample sample-IsHeap

vgc_free-IsHeap_example :
    Ends
      (λ _ t.
        Released paired base pair_top
          (cell 4096 busy ∷ [])
          (cell 4096 busy)
          (cell 28672 free ∷ [])
          t
        × IsHeap t (
            region base
              (one_less pair_top)
              (release_cell (cell 4096 busy ∷ []) (cell 4096 busy) (cell 28672 free ∷ []))
            ∷ []))
      (vgc_free granting 94108 paired)
vgc_free-IsHeap_example =
    vgc_free-IsHeap granting granting-Locks [] base pair_top (cell 4096 busy ∷ []) (cell 4096 busy)
      (cell 28672 free ∷ []) [] 94108 paired paired-IsHeap refl pair_two (omega arith) (omega arith)
      refl

-- A second MMAP block behind the sample, with one block in use that fills it.
abbrev pub second : Ptr
second = 196608

abbrev second_top : MmapHeader
second_top = record top { prev = base }

abbrev first_top : MmapHeader
first_top = record top { next = second }

abbrev pub whole : List Cell
whole = cell 53248 busy ∷ []

abbrev chained : State
chained = record sample {
  shared = record sample.shared { mmap_block_count = 2 };
  mmaps = update (update (λ q. none) base (some first_top)) second (some second_top);
  blocks = update sample.blocks 200704 (some (header second 0 0 (cell 53248 busy)));
}

chained-IsHeap : IsHeap chained (region base first_top cells ∷ region second second_top whole ∷ [])
chained-IsHeap = record {
  regions = (
    record {
      base = omega arith;
      here = refl;
      chain = (refl, (refl, (refl, tt)));
      nonempty = omega arith;
      filled = refl;
      max = refl;
      within = omega arith;
      bound = omega arith;
      mapped = λ q a b. refl;
      elements = refl;
      check_start = refl;
      check_end = refl;
    },
    refl,
    refl,
    (inl (omega arith), tt),
    (
      record {
        base = omega arith;
        here = refl;
        chain = (refl, tt);
        nonempty = omega arith;
        filled = refl;
        max = refl;
        within = omega arith;
        bound = omega arith;
        mapped = λ q a b. refl;
        elements = refl;
        check_start = refl;
        check_end = refl;
      },
      refl,
      refl,
      tt,
      tt,
    ),
  );
  first = refl;
  count = refl;
}

whole_freed : release_cell [] (cell 53248 busy) [] ≡ cell 53248 free ∷ []
unfolding release_cell join_prev join_next
whole_freed = refl

vgc_free-unlinked_example :
    Ends
      (λ _ t. IsHeap t (unlinked null (region base first_top cells ∷ []) []))
      (vgc_free granting 208996 chained)
vgc_free-unlinked_example =
    vgc_free-unlinked granting granting-Locks second second_top [] (cell 53248 busy)
      (cell 53248 free) [] [] 208996 chained (region base first_top cells) [] chained-IsHeap refl
      whole_freed (omega arith) (omega arith) refl

-- One MMAP block with one block in use that fills it.
abbrev lone : State
lone = record chained {
  mmaps = update (λ q. none) base (some top);
  shared = sample.shared;
  blocks = update (λ q. none) 69632 (some (header base 0 0 (cell 53248 busy)));
}

lone-IsHeap : IsHeap lone (region base top whole ∷ [])
lone-IsHeap = record {
  regions = (
    record {
      base = omega arith;
      here = refl;
      chain = (refl, tt);
      nonempty = omega arith;
      filled = refl;
      max = refl;
      within = omega arith;
      bound = omega arith;
      mapped = λ q a b. refl;
      elements = refl;
      check_start = refl;
      check_end = refl;
    },
    refl,
    refl,
    tt,
    tt,
  );
  first = refl;
  count = refl;
}

vgc_free-first_example :
    Ends
      (λ _ t.
        Regions t null (back null [])
        × (t.shared.mmap_block_first ≡ null)
        × (t.shared.mmap_block_count ≡ 0))
      (vgc_free granting 77924 lone)
vgc_free-first_example =
    vgc_free-first granting granting-Locks base top [] (cell 53248 busy) (cell 53248 free) [] []
      77924 lone lone-IsHeap refl whole_freed (omega arith) (omega arith) refl
