-- ===== src/Malloc/Check.antt =====
-- checkMmapBlock and isInMmapBlock of src/vgc_malloc.c. A walk along a chain of
-- headers takes fuel; its callers give one unit for each byte of an MMAP block, more than any
-- chain of headers inside the block can use.
use vgc_malloc.Base.{
  ℕ, zero, suc, ◌+◌, String, Bool, true, false, ◌&&◌, ◌||◌, ◌==◌, ltb, if◌then◌else◌, add64, sub64,
}
use vgc_malloc.Memory.{
  Ptr, null, sizeof_mmap_header, MmapHeader, M, out_of_fuel, pure, ◌>>=◌, ◌>>◌, get_shared, report,
  load_mmap, load_block,
}
use vgc_malloc.Malloc.Sizes.{Sizes, no_sizes, add_block, first_malloc_header}
use vgc_malloc.Malloc.Dump.{dump_printed}

-- The total of the sizes, against what the block has room for.
abbrev pub totals_agree : (mmap_block_size : ℕ) → Sizes → Bool
totals_agree n z = sub64 (sub64 n sizeof_mmap_header) z.headers == add64 z.busy z.free

-- What is left of the function once the loop has ended. An inconsistent total is reported, the block
-- is dumped, and the result is true all the same.
abbrev pub end_check : String → Ptr → Bool → M Bool
end_check str m true = pure true
end_check str m false = do report str "Found inconsistent MMAP" "Error"; dump_printed m; pure true

abbrev pub check_totals : String → Ptr → Sizes → M Bool
check_totals str m z = do sh ← get_shared; end_check str m (totals_agree sh.mmap_block_size z)

-- A block is found wrong: it is reported and dumped, and the result is false.
abbrev pub found_wrong : String → Ptr → String → M Bool
found_wrong str m what = do report str what "Error"; dump_printed m; pure false

unfoldable pub check_loop : String → ℕ → Ptr → MmapHeader → Ptr → Sizes → M Bool
check_loop str zero m h p z = λ _. out_of_fuel
check_loop str (suc k) m h p z = if p == null then check_totals str m z else do
  b ← load_block p
  sh ← get_shared
  if ltb h.max_size b.size
      then found_wrong str m "Found too big memory block"
      else if ltb p m || ltb (m + sh.mmap_block_size) p
      then found_wrong str m "Found wrong memory pointer"
      else if b.next == null
      then check_totals str m (add_block b z)
      else do
        n ← load_block b.next
        if p == n.prev
            then check_loop str k m h b.next (add_block b z)
            else found_wrong str m "Found memory overwrite"

-- checkMmapBlock
unfoldable pub check_mmap_block : String → Ptr → M Bool
check_mmap_block str m = do
  sh ← get_shared
  h ← load_mmap m
  check_loop str (suc sh.mmap_block_size) m h (first_malloc_header m) no_sizes

unfoldable pub in_mmap_loop : ℕ → Ptr → Ptr → M Bool
in_mmap_loop zero p m = λ _. out_of_fuel
in_mmap_loop (suc k) p m = if m == null then pure false else do
  h ← load_mmap m
  sh ← get_shared
  if ltb m p && ltb p (m + sh.mmap_block_size) then pure true else in_mmap_loop k p h.next

-- isInMmapBlock. The counter of MMAP blocks bounds the length of their list.
unfoldable pub is_in_mmap_block : Ptr → M Bool
is_in_mmap_block p = do
  sh ← get_shared
  in_mmap_loop (suc sh.mmap_block_count) p sh.mmap_block_first
