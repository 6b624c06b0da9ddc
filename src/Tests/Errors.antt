-- ===== src/Tests/Errors.antt =====
-- The theorems on errors and on damaged memory at concrete inputs.
use vgc_malloc.Base.{
  ◌<◌, ◌∙◌, sym, ap, length, word_mod, ◌+◌, ◌≡◌, refl, inl, true, false, none, some, List, [], ◌∷◌,
  ◌++◌, arith, suc, ◌==◌, int_of_size, ◌⊎◌, if◌then◌else◌,
}
use vgc_malloc.Errno.{eagain, success}
use vgc_malloc.Memory.{
  Ptr, null, MmapHeader, State, mmap_mutex, same_mutex, free, busy, update, ◌>>◌,
}
use vgc_malloc.Memory.Ends.{Ends}
use vgc_malloc.Memory.Locking.{Leaves}
use vgc_malloc.System.{System}
use vgc_malloc.System.Laws.{Locks}
use vgc_malloc.System.Locking.{Unlocks}
use vgc_malloc.Malloc.Check.{check_mmap_block}
use vgc_malloc.Malloc.Block.{carve, user_address}
use vgc_malloc.Malloc.Release.{coalesce, release_mmap, vgc_free}
use vgc_malloc.Malloc.Api.{malloc, calloc, realloc}
use vgc_malloc.Malloc.Balance.{operations-Leaves}
use vgc_malloc.Chain.{Cell, cell, header, Chain, span}
use vgc_malloc.Chain.Mmap.{IsMmap, busy_cells}
use vgc_malloc.Chain.FirstFit.{IsMmap-Same}
use vgc_malloc.Chain.Carve.{place}
use vgc_malloc.Chain.Coalesce.{release_cell, join_prev}
use vgc_malloc.Chain.Join.{join_next}
use vgc_malloc.Chain.Judged.{Judged, check_mmap_block-Judged}
use vgc_malloc.Chain.Guard.{coalesce-carve}
use vgc_malloc.Heap.{Region, region, IsHeap}
use vgc_malloc.Heap.Release.{Relinked}
use vgc_malloc.Heap.Full.{Refused, malloc-Refused}
use vgc_malloc.Heap.Walk.{Served}
use vgc_malloc.Heap.Torn.{release_mmap-torn}
use vgc_malloc.Tests.{granting}
use vgc_malloc.Tests.Alloc.{base, top, cells, sample}
use vgc_malloc.Tests.Public.{pair, pair_top, paired, paired-IsMmap}
use vgc_malloc.Tests.Heap.{second, whole, sample-IsHeap}

-- The first lock is granted, and no other.
abbrev once : System
once = record granting { lock = λ n m. if n == 0 then success else eagain }

once-Unlocks : Unlocks once
once-Unlocks = record { unlocked = λ n m. refl; mended = λ n m. refl }

operations-Leaves_example :
    Leaves [] (malloc once 100 sample)
    × Leaves [] (vgc_free once 94108 sample)
    × Leaves [] (calloc once 100 4 sample)
    × Leaves [] (realloc once 94108 100 sample)
operations-Leaves_example = operations-Leaves once once-Unlocks 94108 100 4 sample

-- The last header is linked back to the wrong one.
abbrev damaged : State
damaged = record sample {
  blocks = update sample.blocks 94208 (some (header base 0 0 (cell 28672 free)));
}

check_mmap_block-Judged_example :
    Judged damaged base top (suc 65536) (base + 4096) (check_mmap_block "vgc_free" base damaged)
check_mmap_block-Judged_example = check_mmap_block-Judged "vgc_free" base top damaged refl refl

pair_freed :
    release_cell (cell 4096 busy ∷ []) (cell 4096 busy) (cell 28672 free ∷ [])
    ≡ (cell 4096 busy ∷ []) ++ cell 40960 free ∷ []
unfolding release_cell join_prev join_next
pair_freed = refl

-- All guard pages are closed.
abbrev closed : State
closed = record paired { guarded = λ q. true }

closed-IsMmap : IsMmap closed base pair_top pair
closed-IsMmap =
    IsMmap-Same (record { shared = refl; mapped = refl; bytes = refl; mmaps = refl; blocks = refl })
      paired-IsMmap

coalesce-carve_example :
    Ends
      (λ a t.
        (a ≡ user_address true 4096 (int_of_size 100) 81920)
        × Chain t.blocks base 69632 81920 (place 4096 (cell 40960 free) ++ []) null
        × (t.guarded 81920 ≡ false))
      ((do coalesce granting 81920; carve granting base 81920 100) closed)
coalesce-carve_example =
    coalesce-carve granting base pair_top (cell 4096 busy ∷ []) (cell 4096 busy) (cell 40960 free)
      (cell 28672 free ∷ []) [] 100 closed (λ k x. refl) closed-IsMmap pair_freed (omega arith)

abbrev refusing : System
refusing = record granting { mmap = λ n len. none }

refusing-Locks : Locks refusing
refusing-Locks = record { granted = λ n m. refl }

-- There is no cell of 40000 bytes.
malloc-Refused_example :
    Ends
      (λ a t.
        Refused 40000 sample (region base top cells) [] a t
        ⊎ (Served sample (region base top cells ∷ []) 40000 a t
            × ((qs : List Region) × IsHeap t qs)))
      (malloc refusing 40000 sample)
malloc-Refused_example =
    malloc-Refused refusing refusing-Locks (λ c len. refl) 40000 sample (region base top cells) []
      refl sample-IsHeap

-- Three MMAP blocks; the second has one block, which is free.
abbrev third : Ptr
third = 327680

abbrev head_top : MmapHeader
head_top = record top { next = second }

abbrev middle_top : MmapHeader
middle_top = record top { prev = base; next = third; elements = 0 }

abbrev third_top : MmapHeader
third_top = record top { prev = second }

abbrev trio : State
trio = record sample {
  shared = record sample.shared { mmap_block_count = 3 };
  mmaps =
      update (update (update (λ q. none) base (some head_top)) second (some middle_top)) third
        (some third_top);
  blocks =
      update (update sample.blocks 200704 (some (header second 0 0 (cell 53248 free)))) 331776
        (some (header third 0 0 (cell 53248 busy)));
}

module _ (m : Ptr) (h : MmapHeader) (cs : List Cell) where
  trio-IsMmap :
      0 < m
      → trio.mmaps m ≡ some h
      → Chain trio.blocks m null (m + 4096) cs null
      → 0 < length cs
      → 4096 + span cs ≡ 65536
      → h ≡ record top { prev = h.prev; next = h.next; elements = busy_cells cs }
      → m + 65536 < word_mod
      → IsMmap trio m h cs
  trio-IsMmap pos here chain some_ filled e bound = record {
    base = pos;
    here = here;
    chain = chain;
    nonempty = some_;
    filled = filled ∙ sym (ap (λ x. x.size) e);
    max = omega (arith, ap (λ x. x.max_size) e, ap (λ x. x.size) e);
    within = omega (arith, ap (λ x. x.size) e);
    bound = bound;
    mapped = λ q a b. refl;
    elements = ap (λ x. x.elements) e;
    check_start = ap (λ x. x.check_start) e;
    check_end = ap (λ x. x.check_end) e;
  }

abbrev head_region : Region
head_region = region base head_top cells

abbrev middle_region : Region
middle_region = region second middle_top (cell 53248 free ∷ [])

abbrev last_region : Region
last_region = region third third_top whole

trio-IsHeap : IsHeap trio ([] ++ head_region ∷ middle_region ∷ last_region ∷ [])
trio-IsHeap = record {
  regions = (
    trio-IsMmap base head_top cells (omega arith) refl (refl, (refl, (refl, tt))) (omega arith) refl
        refl (omega arith),
    refl,
    refl,
    (inl (omega arith), (inl (omega arith), tt)),
    (
      trio-IsMmap second middle_top (cell 53248 free ∷ []) (omega arith) refl (refl, tt)
          (omega arith) refl refl (omega arith),
      refl,
      refl,
      (inl (omega arith), tt),
      (
        trio-IsMmap third third_top whole (omega arith) refl (refl, tt) (omega arith) refl refl
            (omega arith),
        refl,
        refl,
        tt,
        tt,
      ),
    ),
  );
  first = refl;
  count = refl;
}

-- The lock of the first MMAP block is refused.
abbrev stubborn : System
stubborn = record granting {
  lock = λ n m. if same_mutex m (mmap_mutex base) then eagain else success;
}

release_mmap-torn_example :
    Ends
      (λ _ t.
        Relinked trio t third (λ k. record k { prev = base })
        × ((qs : List Region) → ¬ IsHeap t qs))
      (release_mmap stubborn second trio)
release_mmap-torn_example =
    release_mmap-torn stubborn [] head_region middle_region last_region [] eagain trio trio-IsHeap
      (λ n. refl) refl (λ n. refl)
