-- ===== src/Malloc/Balance/Release.antt =====
-- The locks of vgc_free of src/vgc_malloc.c.
use vgc_malloc.Base.{◌≡◌, List, ◌∷◌}
use vgc_malloc.Memory.{Ptr, Mutex, shared_mutex, mmap_mutex, State}
use vgc_malloc.Memory.Locking.{Leaves, Leaves-seq, Balanced, lock_rules}
use vgc_malloc.Memory.Where.{Where-seq, load_mmap-Where, load_block-Where}
use vgc_malloc.System.{System}
use vgc_malloc.System.Locking.{
  Unlocks, mutex_lock-then, unlock-Leaves, unlock-then, system_lock_rules,
}
use vgc_malloc.Malloc.Release.{
  unlink_next, unlink_prev, unlock_both, release_mmap, coalesce, release_if_free, free_locked,
  free_block, vgc_free,
}
use vgc_malloc.Malloc.Balance.Check.{
  check_mmap_block-Balanced, is_in_mmap_block-Balanced, dump_printed-Balanced,
}
use vgc_malloc.Malloc.Balance.Block.{free_blocks_next-Balanced, free_blocks_prev-Balanced}
use vgc_malloc.Malloc.Balance.Region.{free_mmap-Balanced}

module _ (sys : System) where
  coalesce-Balanced : (p : Ptr) → Balanced (coalesce sys p)
  unfolding coalesce
  coalesce-Balanced p h s e =
      search (system_lock_rules, free_blocks_next-Balanced, free_blocks_prev-Balanced) depth 12

  module _ (good : Unlocks sys) where
    unlink_next-Balanced : (m : Ptr) → Balanced (unlink_next sys m)
    unfolding unlink_next
    unlink_next-Balanced m h s e = Leaves-seq h _ (load_mmap-Where _ m s e) λ x t e'.
        search
          (
            lock_rules,
            mutex_lock-then sys good {g = h},
            unlock-then sys good,
            Leaves-seq (mmap_mutex x.next ∷ h),
          )
          depth 20

    unlink_prev-Balanced : (m : Ptr) → Balanced (unlink_prev sys m)
    unfolding unlink_prev
    unlink_prev-Balanced m h s e = Leaves-seq h _ (load_mmap-Where _ m s e) λ x t e'.
        search
          (
            lock_rules,
            mutex_lock-then sys good {g = h},
            unlock-then sys good,
            Leaves-seq (mmap_mutex x.prev ∷ h),
          )
          depth 20

    module _ (m : Ptr) (h : List Mutex) where
      unlock_both-Leaves :
          (s : State) → s.held ≡ mmap_mutex m ∷ shared_mutex ∷ h → Leaves h (unlock_both sys m s)
      unfolding unlock_both
      unlock_both-Leaves s e =
          Where-seq _ (unlock-Leaves sys good s (mmap_mutex m) _ e)
            λ _ t e'. unlock-Leaves sys good t shared_mutex _ e'

      release_mmap-Leaves :
          (s : State) → s.held ≡ mmap_mutex m ∷ shared_mutex ∷ h → Leaves h (release_mmap sys m s)
      unfolding release_mmap
      release_mmap-Leaves s e =
          search
            (
              system_lock_rules,
              Leaves-seq (mmap_mutex m ∷ shared_mutex ∷ h),
              Leaves-seq (shared_mutex ∷ h),
              unlink_next-Balanced,
              unlink_prev-Balanced,
              unlock_both-Leaves,
              unlock-Leaves sys good,
              free_mmap-Balanced,
            )
            depth 25 fits 4000

      release_if_free-Leaves :
          (s : State)
          → s.held ≡ mmap_mutex m ∷ shared_mutex ∷ h
          → Leaves h (release_if_free sys m s)
      unfolding release_if_free
      release_if_free-Leaves s e =
          search
            (
              lock_rules,
              Leaves-seq (mmap_mutex m ∷ shared_mutex ∷ h),
              release_mmap-Leaves,
              unlock_both-Leaves,
            )
            depth 12

      free_locked-Leaves :
          (p : Ptr) (s : State)
          → s.held ≡ mmap_mutex m ∷ shared_mutex ∷ h
          → Leaves h (free_locked sys m p s)
      unfolding free_locked
      free_locked-Leaves p s e =
          search
            (
              lock_rules,
              Leaves-seq (mmap_mutex m ∷ shared_mutex ∷ h),
              unlock_both-Leaves,
              check_mmap_block-Balanced,
              coalesce-Balanced,
              release_if_free-Leaves,
            )
            depth 12

    free_block-Leaves :
        (p : Ptr) (h : List Mutex) (s : State)
        → s.held ≡ shared_mutex ∷ h
        → Leaves h (free_block sys p s)
    unfolding free_block
    free_block-Leaves p h s e = Leaves-seq (shared_mutex ∷ h) _ (load_block-Where _ p s e) λ b t e'.
        search
          (
            lock_rules,
            mutex_lock-then sys good {g = shared_mutex ∷ h},
            unlock-then sys good,
            Leaves-seq (shared_mutex ∷ h),
            free_locked-Leaves b.mmap_block h,
            dump_printed-Balanced,
          )
          depth 20

    pub vgc_free-Balanced : (p : Ptr) → Balanced (vgc_free sys p)
    unfolding vgc_free
    vgc_free-Balanced p h s e =
        search
          (
            lock_rules,
            mutex_lock-then sys good {g = h},
            unlock-then sys good,
            Leaves-seq (shared_mutex ∷ h),
            is_in_mmap_block-Balanced,
            free_block-Leaves,
          )
          depth 20
