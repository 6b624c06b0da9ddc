-- ===== src/Malloc/Entry.antt =====
-- Two threads in vgc_malloc of src/vgc_malloc.c, up to the point where the shared mutex is taken. The
-- test of mmapBlockFirst, mmapBlockAllocate, the store of its result and the test of what was stored
-- are a step each; the threads take turns between them. That mmapBlockAllocate is one step leaves out the
-- orders in which two of its calls overlap.
use vgc_malloc.Base.{ℕ, ◌≡◌, ◌==◌, if◌then◌else◌}
use vgc_malloc.Memory.{
  Ptr, null, map_failed, State, M, ok, pure, ◌>>=◌, ◌>>◌, get_shared, set_shared,
}
use vgc_malloc.System.{System}
use vgc_malloc.Malloc.Region.{mmap_block_allocate}
use vgc_malloc.Malloc.Api.{malloc_sized}

-- Where a thread stands. `ready` is behind the first MMAP block.
pub data Stage : Type 0 where
  entering making testing ready failed : Stage
  storing : Ptr → Stage

module _ (sys : System) where
  unfoldable pub act : Stage → M Stage
  act entering = do sh ← get_shared; pure (if sh.mmap_block_first == null then making else ready)
  act making = do
    sh ← get_shared
    first ← mmap_block_allocate sys sh.mmap_block_size null
    pure (storing first)
  act (storing first) = do
    sh ← get_shared
    set_shared (record sh { mmap_block_first = first })
    pure testing
  act testing = do
    sh ← get_shared
    pure (if sh.mmap_block_first == map_failed then failed else ready)
  act ready = pure ready
  act failed = pure failed

  -- What follows.
  unfoldable pub proceed : ℕ → Stage → M Ptr
  proceed size ready = malloc_sized sys size
  proceed size _ = pure null

-- The threads of two processes, each with the answers that it gets, and the memory they share.
pub record World : Type 0 where
  pub one : Stage
  pub two : Stage
  pub mem : State

pub data Step (a b : System) (w : World) : World → Type 0 where
  first_acts :
      {x : Stage} {t : State}
      → act a w.one w.mem ≡ ok x t
      → Step a b w (record { one = x; two = w.two; mem = t })
  second_acts :
      {x : Stage} {t : State}
      → act b w.two w.mem ≡ ok x t
      → Step a b w (record { one = w.one; two = x; mem = t })

pub data Reach (a b : System) (w : World) : World → Type 0 where
  start : Reach a b w w
  later : {u v : World} → Reach a b w u → Step a b u v → Reach a b w v
