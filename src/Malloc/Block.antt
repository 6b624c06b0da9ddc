-- ===== src/Malloc/Block.antt =====
-- allocMallocBlock, freeBlocksNext and freeBlocksPrev of src/vgc_malloc.c.
use vgc_malloc.Base.{
  ℕ, zero, suc, ◌+◌, ◌-◌, ◌/◌, ◌%◌, Bool, not, ◌&&◌, ◌==◌, leb, ltb, if◌then◌else◌, add64, sub64,
  mul64, int_of_size,
}
use vgc_malloc.Memory.{
  Ptr, null, check_mark, sizeof_malloc_header, free, busy, is_free, mmap_mutex, M, out_of_fuel,
  pure, ◌>>=◌, ◌>>◌, when, get_shared, report, load_mmap, store_mmap, load_block, store_block,
  update, ok,
}
use vgc_malloc.System.{System, mutex_lock}
use vgc_malloc.Mprotect.{mprotect, munprotect}
use vgc_malloc.Malloc.Locks.{unlock_mmap}
use vgc_malloc.Malloc.Sizes.{first_malloc_header}
use vgc_malloc.Malloc.Check.{check_mmap_block}

-- The search for a free block with room for `length` bytes; null if there is none.
unfoldable pub find_free : ℕ → Ptr → ℕ → M Ptr
find_free zero p length = λ _. out_of_fuel
find_free (suc k) p length = if p == null then pure null else do
  b ← load_block p
  if is_free b.status && leb length b.size then pure p else find_free k b.next length

-- Next is rounded up to whole pages where guard pages are in use.
abbrev pub round_length : Bool → (page_size length : ℕ) → ℕ
round_length enabled page_size length =
    if enabled
    then (if length % page_size == 0 then length else mul64 (length / page_size + 1) page_size)
    else length

-- `if (x) x->prev = p`
unfoldable pub set_prev : Ptr → Ptr → M (Unit {0})
set_prev x p = when (not (x == null)) (do b ← load_block x; store_block x (record b { prev = p }))

-- The address handed out for the block at `p`: the last byte asked for ends a page.
abbrev pub user_address : Bool → (page_size length_orig : ℕ) → Ptr → Ptr
user_address enabled page_size length_orig p =
    p + sizeof_malloc_header + (if enabled then page_size - length_orig % page_size else 0)

module _ (sys : System) where
  -- The header of the rest of a block that is split at `next`.
  unfoldable pub split_block : Ptr → Ptr → ℕ → M (Unit {0})
  split_block m p block_size = do
    let next = p + block_size
    b ← load_block p
    store_block next (record {
      check_start = check_mark;
      size = sub64 b.size block_size;
      status = free;
      mmap_block = m;
      prev = p;
      next = b.next;
      check_end = check_mark;
    })
    _ ← mprotect sys next
    pure tt

  -- The block at `p` is given to the caller, with `next` behind it.
  unfoldable pub take_block : Ptr → Ptr → ℕ → Ptr → M (Unit {0})
  take_block m p length next = do
    h ← load_mmap m
    store_mmap m (record h { elements = add64 h.elements 1 })
    b ← load_block p
    store_block p (record b {
      check_start = check_mark;
      size = length;
      status = busy;
      mmap_block = m;
      next = next;
      check_end = check_mark;
    })
    when (not (next == null)) (do n ← load_block next; set_prev n.next next)

  -- vgc_stacktraceSave
  unfoldable pub stacktrace_save : Ptr → M (Unit {0})
  stacktrace_save p s =
      ok tt (record s { traces = update s.traces p (sys.backtrace s.calls); calls = suc s.calls })

  -- What allocMallocBlock does once the free block at `p` is found and the chain is checked.
  unfoldable pub carve : Ptr → Ptr → ℕ → M Ptr
  carve m p length = do
    let length_orig = int_of_size length
    sh ← get_shared
    let rounded = round_length sh.is_mprotect_enabled sh.page_size length
    b ← load_block p
    let block_size = add64 rounded sizeof_malloc_header
    if ltb block_size b.size
        then (do split_block m p block_size; take_block m p rounded (p + block_size))
        else take_block m p b.size b.next
    stacktrace_save p
    pure (user_address sh.is_mprotect_enabled sh.page_size length_orig p)

  -- allocMallocBlock
  unfoldable pub alloc_malloc_block : Ptr → ℕ → M Ptr
  alloc_malloc_block m length = do
    locked ← mutex_lock sys (mmap_mutex m)
    if not locked
        then (do report "PTHREAD_mutexLock" "Error" "can't get lock on mmapBlock"; pure null)
        else do
          sh ← get_shared
          p ← find_free (suc sh.mmap_block_size) (first_malloc_header m) length
          if p == null then (do unlock_mmap sys m; pure null) else do
            sound ← check_mmap_block "vgc_malloc" m
            if not sound
                then (do
                  unlock_mmap sys m
                  report "checkMmapBlock" "Error"
                      "The MMAP for vgc_malloc is unstable while allocating memory"
                  pure null)
                else do memory ← carve m p length; unlock_mmap sys m; pure memory

  -- freeBlocksNext
  unfoldable pub free_blocks_next : Ptr → M (Unit {0})
  free_blocks_next p = do
    b ← load_block p
    if b.next == null then pure tt else do
      n ← load_block b.next
      when (is_free n.status) (do
        _ ← munprotect sys b.next
        store_block p
            (record b { size = add64 b.size (add64 n.size sizeof_malloc_header); next = n.next })
        set_prev n.next p)

  -- freeBlocksPrev
  unfoldable pub free_blocks_prev : Ptr → M (Unit {0})
  free_blocks_prev p = do
    b ← load_block p
    if b.prev == null then pure tt else do
      w ← load_block b.prev
      when (is_free w.status) (do
        _ ← munprotect sys p
        store_block b.prev
            (record w { size = add64 w.size (add64 b.size sizeof_malloc_header); next = b.next })
        set_prev b.next b.prev)
