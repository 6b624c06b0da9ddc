-- ===== src/Tests.antt =====
-- A system and states for the tests, and runs of the library on a small MMAP block.
mod Alloc
mod Public
mod Children
mod Dump
mod Errors
mod Heap
mod Message
mod Race
mod Wrappers
use vgc_malloc.Base.{ℕ, ◌+◌, ◌*◌, ◌≡◌, refl, true, false, Option, none, some, List, [], ◌∷◌}
use vgc_malloc.Errno.{success}
use vgc_malloc.Pthread
use vgc_malloc.Memory.{Ptr, State, Run, M, ok, fault, out_of_fuel, ◌>>=◌, ◌>>◌, pure, get_shared}
use vgc_malloc.System.{System}
use vgc_malloc.Mprotect
use vgc_malloc.Memory
use vgc_malloc.Malloc.Locks
use vgc_malloc.Malloc.Check
use vgc_malloc.Malloc.Region
use vgc_malloc.Malloc.Block
use vgc_malloc.Malloc.Release
use vgc_malloc.Malloc.Api
use vgc_malloc.Malloc.Api.{malloc, calloc, realloc}
use vgc_malloc.Malloc.Release.{vgc_free}

-- Every call succeeds, and mmap hands out areas of a megabyte, one for each number of a call.
abbrev pub granting : System
granting = record {
  mmap = λ n len. some (1048576 * (n + 1));
  munmap = λ n p len. true;
  mprotect = λ n p. success;
  lock = λ n m. success;
  consistent = λ n m. success;
  unlock = λ n m. success;
  init = λ n m. success;
  destroy = λ n m. success;
  attr_init = λ n m. success;
  attr_setrobust = λ n m. success;
  attr_setpshared = λ n m. success;
  attr_settype = λ n m. success;
  attr_destroy = λ n m. success;
  backtrace = λ n. n ∷ [];
}

-- The state after createShared, with MMAP blocks of sixteen pages.
abbrev pub fresh : State
fresh = record {
  shared = record {
    pid = 7;
    page_size = 4096;
    mmap_block_first = 0;
    mmap_block_count = 0;
    mmap_block_size = 65536;
    is_mprotect_enabled = true;
  };
  mapped = λ q. false;
  mmaps = λ q. none;
  blocks = λ q. none;
  guarded = λ q. false;
  traces = λ q. [];
  bytes = λ q. 0;
  held = [];
  log = [];
  calls = 0;
}

abbrev pub outcome : {A : Type 0} → Run A → Option A
outcome (ok a s) = some a
outcome fault = none
outcome out_of_fuel = none

-- Opens every function of the model for a run.
unfoldable pub run : {A : Type 0} → M A → Option A
unfolding Memory.load_mmap Memory.store_mmap Memory.load_block Memory.store_block Memory.mem_set
    Memory.mem_copy package.vgc_malloc.System.mutex_lock package.vgc_malloc.System.mutex_unlock
    package.vgc_malloc.System.mutex_init package.vgc_malloc.System.mutex_destroy
    package.vgc_malloc.System.mutexattr_init package.vgc_malloc.System.mutexattr_destroy
    package.vgc_malloc.System.mmap package.vgc_malloc.System.munmap Pthread.mutex_lock
    Pthread.mutex_unlock Pthread.mutex_init Pthread.mutex_destroy Pthread.mutexattr_init
    Pthread.mutexattr_destroy Mprotect.do_mprotect Mprotect.mprotect Mprotect.munprotect
    Locks.unlock_or_report Check.check_loop Check.check_mmap_block Check.in_mmap_loop
    Check.is_in_mmap_block Region.abandon Region.fill_mmap Region.alloc_mmap
    Region.mmap_block_allocate Region.free_mmap Block.find_free Block.set_prev Block.split_block
    Block.take_block Block.stacktrace_save Block.carve Block.alloc_malloc_block
    Block.free_blocks_next Block.free_blocks_prev Release.unlink_next Release.unlink_prev
    Release.unlock_both Release.release_mmap Release.coalesce Release.release_if_free
    Release.free_locked Release.free_block Release.vgc_free Api.malloc_loop Api.malloc_locked
    Api.malloc_sized Api.malloc Api.calloc Api.realloc
run m = outcome (m fresh)

malloc_runs : run (malloc granting 100) ≡ some (1048576 + 4096 + 8192 + 3996)
unfolding run
malloc_runs = refl

abbrev two : M (Ptr × Ptr)
two = do p ← malloc granting 100; q ← malloc granting 5000; pure (p, q)

-- The first block stands at the start of the MMAP block, the second behind it.
two_mallocs : run two ≡ some (1064860, 1076344)
unfolding run
two_mallocs = refl

-- The last block of the MMAP block is freed, and it is unmapped: no MMAP block is left.
emptied : M (Ptr × ℕ)
emptied = do
  p ← malloc granting 100
  vgc_free granting p
  sh ← get_shared
  pure (sh.mmap_block_first, sh.mmap_block_count)

emptied_runs : run emptied ≡ some (0, 0)
unfolding run emptied
emptied_runs = refl

-- A second MMAP block is lost when the first is unmapped before it.
orphaned : M (Ptr × ℕ)
orphaned = do
  p ← malloc granting 40000
  q ← malloc granting 40000
  vgc_free granting p
  vgc_free granting q
  sh ← get_shared
  pure (sh.mmap_block_first, sh.mmap_block_count)

orphaned_runs : run orphaned ≡ some (0, 1)
unfolding run orphaned
orphaned_runs = refl
