-- ===== src/Malloc/Balance.antt =====
-- The locks of src/vgc_malloc.c: what is taken is given up, on every path. The children have the
-- functions that vgc_malloc and vgc_free call.
mod Check
mod Block
mod Region
mod Release
use vgc_malloc.Base.{ℕ, zero, suc, ◌≡◌, refl, List, ◌∷◌}
use vgc_malloc.Memory.{Ptr, Mutex, shared_mutex, State}
use vgc_malloc.Memory.Locking.{Leaves, Leaves-seq, Balanced, lock_rules}
use vgc_malloc.Memory.Where
use vgc_malloc.Memory.Where.{
  Where, ended, Where-seq, Where-if, Where-option, load_mmap-Where, load_block-Where,
}
use vgc_malloc.System.{System}
use vgc_malloc.System.Locking.{Unlocks, mutex_lock-then, unlock-then}
use vgc_malloc.Malloc.Release.{vgc_free}
use vgc_malloc.Malloc.Api.{malloc_loop, malloc_locked, malloc_sized, malloc, calloc, realloc}
use vgc_malloc.Malloc.Balance.Block.{alloc_malloc_block-Balanced}
use vgc_malloc.Malloc.Balance.Region.{mmap_block_allocate-Balanced}
use vgc_malloc.Malloc.Balance.Release.{vgc_free-Balanced}

module _ (sys : System) (good : Unlocks sys) where
  malloc_loop-Balanced : (k : ℕ) (last m : Ptr) (n : ℕ) → Balanced (malloc_loop sys k last m n)
  unfolding malloc_loop
  malloc_loop-Balanced zero last m n h s e = search lock_rules
  malloc_loop-Balanced (suc k) last m n h s e =
      search (lock_rules, alloc_malloc_block-Balanced sys good, malloc_loop-Balanced k m) depth 12

  malloc_locked-Leaves :
      (n : ℕ) (h : List Mutex) (s : State)
      → s.held ≡ shared_mutex ∷ h
      → Leaves h (malloc_locked sys n s)
  unfolding malloc_locked
  malloc_locked-Leaves n h s e =
      search
        (
          lock_rules,
          unlock-then sys good,
          Leaves-seq (shared_mutex ∷ h),
          malloc_loop-Balanced,
          alloc_malloc_block-Balanced sys good,
          mmap_block_allocate-Balanced sys good,
        )
        depth 20

  malloc_sized-Balanced : (n : ℕ) → Balanced (malloc_sized sys n)
  unfolding malloc_sized
  malloc_sized-Balanced n h s e =
      search (lock_rules, mutex_lock-then sys good {g = h}, malloc_locked-Leaves) depth 20

  malloc-Balanced : (n : ℕ) → Balanced (malloc sys n)
  unfolding malloc
  malloc-Balanced n h s e =
      search (lock_rules, mmap_block_allocate-Balanced sys good, malloc_sized-Balanced) depth 12

  calloc-Balanced : (n k : ℕ) → Balanced (calloc sys n k)
  unfolding calloc
  calloc-Balanced n k h s e = search (lock_rules, malloc-Balanced) depth 12

  realloc-Balanced : (p : Ptr) (n : ℕ) → Balanced (realloc sys p n)
  unfolding realloc
  realloc-Balanced p n h s e =
      search (lock_rules, malloc-Balanced, vgc_free-Balanced sys good) depth 12

  -- From any memory, well-formed or not, and whatever else the system answers, refused locks
  -- included: where every unlock succeeds and a mutex whose owner has died is made consistent,
  -- vgc_malloc, vgc_free, vgc_calloc and vgc_realloc hold the locks that they were called with
  -- where they return.
  pub operations-Leaves :
      (p : Ptr) (n k : ℕ) (s : State)
      → Leaves s.held (malloc sys n s)
        × Leaves s.held (vgc_free sys p s)
        × Leaves s.held (calloc sys n k s)
        × Leaves s.held (realloc sys p n s)
  operations-Leaves p n k s = (
    malloc-Balanced n s.held s refl,
    vgc_free-Balanced sys good p s.held s refl,
    calloc-Balanced n k s.held s refl,
    realloc-Balanced p n s.held s refl,
  )
