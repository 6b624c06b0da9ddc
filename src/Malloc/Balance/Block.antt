-- ===== src/Malloc/Balance/Block.antt =====
-- The locks of allocMallocBlock, freeBlocksNext and freeBlocksPrev of src/vgc_malloc.c.
use vgc_malloc.Base.{ℕ, zero, suc, ◌∷◌}
use vgc_malloc.Memory.{Ptr, mmap_mutex}
use vgc_malloc.Memory.Locking.{Leaves-seq, Balanced, lock_rules}
use vgc_malloc.Memory.Where.{ended}
use vgc_malloc.System.{System}
use vgc_malloc.System.Locking.{Unlocks, mutex_lock-then, unlock-then, system_lock_rules}
use vgc_malloc.Malloc.Block.{
  find_free, set_prev, split_block, take_block, stacktrace_save, carve, alloc_malloc_block,
  free_blocks_next, free_blocks_prev,
}
use vgc_malloc.Malloc.Balance.Check.{check_mmap_block-Balanced}

find_free-Balanced : (k : ℕ) (p : Ptr) (n : ℕ) → Balanced (find_free k p n)
unfolding find_free
find_free-Balanced zero p n h s e = search lock_rules
find_free-Balanced (suc k) p n h s e = search (lock_rules, find_free-Balanced k) depth 12

set_prev-Balanced : (x p : Ptr) → Balanced (set_prev x p)
unfolding set_prev
set_prev-Balanced x p h s e = search lock_rules depth 12

module _ (sys : System) where
  split_block-Balanced : (m p : Ptr) (n : ℕ) → Balanced (split_block sys m p n)
  unfolding split_block
  split_block-Balanced m p n h s e = search system_lock_rules depth 12

  take_block-Balanced : (m p : Ptr) (n : ℕ) (next : Ptr) → Balanced (take_block sys m p n next)
  unfolding take_block
  take_block-Balanced m p n next h s e = search (system_lock_rules, set_prev-Balanced) depth 12

  stacktrace_save-Balanced : (p : Ptr) → Balanced (stacktrace_save sys p)
  unfolding stacktrace_save
  stacktrace_save-Balanced p h s e = ended e

  carve-Balanced : (m p : Ptr) (n : ℕ) → Balanced (carve sys m p n)
  unfolding carve
  carve-Balanced m p n h s e =
      search
        (system_lock_rules, split_block-Balanced, take_block-Balanced, stacktrace_save-Balanced)
        depth 12

  pub free_blocks_next-Balanced : (p : Ptr) → Balanced (free_blocks_next sys p)
  unfolding free_blocks_next
  free_blocks_next-Balanced p h s e = search (system_lock_rules, set_prev-Balanced) depth 12

  pub free_blocks_prev-Balanced : (p : Ptr) → Balanced (free_blocks_prev sys p)
  unfolding free_blocks_prev
  free_blocks_prev-Balanced p h s e = search (system_lock_rules, set_prev-Balanced) depth 12

  module _ (good : Unlocks sys) where
    pub alloc_malloc_block-Balanced : (m : Ptr) (n : ℕ) → Balanced (alloc_malloc_block sys m n)
    unfolding alloc_malloc_block
    alloc_malloc_block-Balanced m n h s e =
        mutex_lock-then sys good s (mmap_mutex m) _ e (λ t e'. ended e')
          λ t e'.
            search
              (
                lock_rules,
                unlock-then sys good,
                Leaves-seq (mmap_mutex m ∷ h),
                find_free-Balanced,
                check_mmap_block-Balanced,
                carve-Balanced,
              )
              depth 20
