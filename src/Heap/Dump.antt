-- ===== src/Heap/Dump.antt =====
-- vgc_mallocCheckMMAP on the list of MMAP blocks.
use vgc_malloc.Memory.{◌>>=◌, ◌>>◌}
use vgc_malloc.Memory.Ends
use vgc_malloc.Memory.Ends.{Ends, load_block-ok}
use vgc_malloc.System.{System}
