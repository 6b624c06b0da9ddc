-- ===== src/Malloc/Balance/Region.antt =====
-- The locks of allocMMAP, mmapBlockAllocate and freeMMAP of src/vgc_malloc.c.
use vgc_malloc.Base.{ℕ, ◌≡◌, List, ◌∷◌}
use vgc_malloc.Memory.{Ptr, Mutex, mmap_mutex, State}
use vgc_malloc.Memory.Locking.{Leaves, Leaves-seq, Balanced}
use vgc_malloc.Memory.Where.{ended, Where-seq, Where-option}
use vgc_malloc.System.{System}
use vgc_malloc.System.Locking.{
  mmap-Balanced, Unlocks, mutex_lock-then, unlock_bool-then, system_lock_rules,
}
use vgc_malloc.Malloc.Region.{abandon, fill_mmap, alloc_mmap, mmap_block_allocate, free_mmap}

module _ (sys : System) where
  abandon-Balanced : (m : Ptr) → Balanced (abandon sys m)
  unfolding abandon
  abandon-Balanced m h s e = search system_lock_rules depth 12

  pub free_mmap-Balanced : (m : Ptr) → Balanced (free_mmap sys m)
  unfolding free_mmap
  free_mmap-Balanced m h s e = search system_lock_rules depth 12

  module _ (good : Unlocks sys) where
    fill_mmap-Leaves :
        (m : Ptr) (size : ℕ) (last : Ptr) (h : List Mutex) (s : State)
        → s.held ≡ mmap_mutex m ∷ h
        → Leaves h (fill_mmap sys m size last s)
    unfolding fill_mmap
    fill_mmap-Leaves m size last h s e =
        search
          (
            system_lock_rules,
            unlock_bool-then sys good,
            Leaves-seq (mmap_mutex m ∷ h),
            abandon-Balanced,
          )
          depth 20

    alloc_mmap-Balanced : (size : ℕ) (last : Ptr) → Balanced (alloc_mmap sys size last)
    unfolding alloc_mmap
    alloc_mmap-Balanced size last h s e = Where-seq _ (mmap-Balanced sys size h s e) λ got t e'.
        Where-option t got _ _ (ended e') λ m.
          search
            (
              system_lock_rules,
              mutex_lock-then sys good {g = h},
              abandon-Balanced,
              fill_mmap-Leaves m,
            )
            depth 20

    pub mmap_block_allocate-Balanced :
        (size : ℕ) (last : Ptr) → Balanced (mmap_block_allocate sys size last)
    unfolding mmap_block_allocate
    mmap_block_allocate-Balanced size last h s e =
        search (system_lock_rules, alloc_mmap-Balanced) depth 12
