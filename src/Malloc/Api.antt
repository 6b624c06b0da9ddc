-- ===== src/Malloc/Api.antt =====
-- vgc_malloc, vgc_calloc and vgc_realloc of src/vgc_malloc.c.
use vgc_malloc.Base.{ℕ, zero, suc, ◌-◌, ◌%◌, Bool, not, ◌==◌, leb, if◌then◌else◌, add64, mul64}
use vgc_malloc.Memory.{
  Ptr, null, map_failed, sizeof_malloc_header, shared_mutex, M, out_of_fuel, pure, ◌>>=◌, ◌>>◌,
  when, get_shared, set_shared, report, load_mmap, load_block, mem_set, mem_copy,
}
use vgc_malloc.System.{System, mutex_lock}
use vgc_malloc.Malloc.Locks.{unlock_shared}
use vgc_malloc.Malloc.Region.{mmap_block_allocate}
use vgc_malloc.Malloc.Block.{alloc_malloc_block}
use vgc_malloc.Malloc.Release.{vgc_free}
use Prim.Native.Nat.{min}

-- The size of a pointer.
abbrev pub word_size : ℕ
word_size = 8

abbrev pub align_size : Bool → ℕ → ℕ
align_size enabled size =
    if enabled
    then size
    else add64 size (if size % word_size == 0 then 0 else word_size - size % word_size)

module _ (sys : System) where
  -- The loop over the MMAP blocks. The result is the memory, or null and the last block visited.
  unfoldable pub malloc_loop : ℕ → Ptr → Ptr → ℕ → M (Ptr × Ptr)
  malloc_loop zero last m size = λ _. out_of_fuel
  malloc_loop (suc k) last m size = if m == null then pure (null, last) else do
    memory ← alloc_malloc_block sys m size
    if memory == null
        then (do h ← load_mmap m; malloc_loop k m h.next size)
        else pure (memory, last)

  -- What vgc_malloc does with the shared mutex held.
  unfoldable pub malloc_locked : ℕ → M Ptr
  malloc_locked size = do
    sh ← get_shared
    (memory, last) ← malloc_loop (suc sh.mmap_block_count) null sh.mmap_block_first size
    if not (memory == null) then (do unlock_shared sys; pure memory) else do
      next ← mmap_block_allocate sys sh.mmap_block_size last
      if next == map_failed
          then (do unlock_shared sys; pure null)
          else do second ← alloc_malloc_block sys next size; unlock_shared sys; pure second

  -- What vgc_malloc does once there is a first MMAP block.
  unfoldable pub malloc_sized : ℕ → M Ptr
  malloc_sized size =
      if size == 0 then (do report "size" "Warning" "size is zero"; pure null) else do
        sh ← get_shared
        let aligned = align_size sh.is_mprotect_enabled size
        first ← load_mmap sh.mmap_block_first
        if leb first.max_size aligned
            then (do report "size" "Error" "size is too big"; pure null)
            else do
              locked ← mutex_lock sys shared_mutex
              if not locked
                  then (do
                    report "PTHREAD_mutexLock" "Error" "can't get lock on shared mutex"
                    pure null)
                  else malloc_locked aligned

  -- vgc_malloc
  unfoldable pub malloc : ℕ → M Ptr
  malloc size = do
    sh ← get_shared
    if sh.mmap_block_first == null
        then (do
          first ← mmap_block_allocate sys sh.mmap_block_size null
          sh' ← get_shared
          set_shared (record sh' { mmap_block_first = first })
          if first == map_failed then pure null else malloc_sized size)
        else malloc_sized size

  -- vgc_calloc
  unfoldable pub calloc : ℕ → ℕ → M Ptr
  calloc nmemb size = do
    let malloc_size = mul64 nmemb size
    if malloc_size == 0
        then (do report "mallocSize" "Warning" "total size is zero"; pure null)
        else do
          p ← malloc malloc_size
          if p == null then pure null else (do mem_set p 0 malloc_size; pure p)

  -- vgc_realloc. The size of the old block is read from the header at `ptr` less a header's size.
  unfoldable pub realloc : Ptr → ℕ → M Ptr
  realloc ptr size =
      if size == 0
      then (do when (not (ptr == null)) (vgc_free sys ptr); pure null)
      else if ptr == null
      then malloc size
      else do
        new ← malloc size
        if new == null then pure null else do
          b ← load_block (ptr - sizeof_malloc_header)
          mem_copy new ptr (min b.size size)
          vgc_free sys ptr
          pure new
