-- ===== src/Malloc/Sizes.antt =====
-- firstMallocHeaderInMMAP of src/vgc_malloc.c, and the three sums that checkMmapBlock and dumpMmapBlock
-- take in their loops.
use vgc_malloc.Base.{ℕ, ◌+◌, if◌then◌else◌, add64}
use vgc_malloc.Memory.{Ptr, sizeof_mmap_header, sizeof_malloc_header, is_free, MallocHeader}

abbrev pub first_malloc_header : Ptr → Ptr
first_malloc_header m = m + sizeof_mmap_header

-- The three sums of the loop.
pub record Sizes : Type 0 where
  pub busy : ℕ
  pub free : ℕ
  pub headers : ℕ

abbrev pub no_sizes : Sizes
no_sizes = record { busy = 0; free = 0; headers = 0 }

abbrev pub add_block : MallocHeader → Sizes → Sizes
add_block b z =
    if is_free b.status
    then record {
      busy = z.busy;
      free = add64 z.free b.size;
      headers = add64 z.headers sizeof_malloc_header;
    }
    else record {
      busy = add64 z.busy b.size;
      free = z.free;
      headers = add64 z.headers sizeof_malloc_header;
    }
