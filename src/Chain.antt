-- ===== src/Chain.antt =====
-- The chain of malloc headers of one MMAP block, as a predicate over the headers in memory: the
-- blocks lie one behind the other, each header followed by its bytes, and are linked both ways.
-- A block is seen as a cell, its size and its status; its address follows from the sizes before it.
pub mod Frame
pub mod Search
pub mod Undo
pub mod RoundTrip
pub mod Free
pub mod Coalesce
pub mod Join
pub mod Grant
pub mod FirstFit
pub mod Alloc
pub mod Carve
pub mod Take
pub mod Patch
pub mod Mmap
pub mod Printed
pub mod Check
pub mod Silent
pub mod Judged
pub mod Guard
pub mod Dump
pub mod Released
pub mod Freed
pub mod Given
pub mod Regain
pub mod Fresh
pub mod First
pub mod Started
use vgc_malloc.Base.{ℕ, ◌+◌, ◌≡◌, ◌<◌, ◌≤◌, Bool, ◌&&◌, Option, some, List, [], ◌∷◌, leb}
use vgc_malloc.Memory.{
  Ptr, MallocStatus, free, busy, is_free, MallocHeader, check_mark, sizeof_malloc_header,
}

pub record Cell : Type 0 where
  pub size : ℕ
  pub status : MallocStatus

abbrev pub cell : ℕ → MallocStatus → Cell
cell n st = record { size = n; status = st }

abbrev pub Blocks : Type 0
Blocks = Ptr → Option MallocHeader

-- The header of a cell.
abbrev pub header : Ptr → Ptr → Ptr → Cell → MallocHeader
header m prev next c = record {
  check_start = check_mark;
  size = c.size;
  status = c.status;
  mmap_block = m;
  prev = prev;
  next = next;
  check_end = check_mark;
}

-- The address behind the block at `p`.
abbrev pub end_of : Ptr → Cell → Ptr
end_of p c = p + (sizeof_malloc_header + c.size)

-- The bytes of the cells, their headers included.
abbrev pub span : List Cell → ℕ
span [] = 0
span (c ∷ cs) = sizeof_malloc_header + c.size + span cs

-- Where a header before the cells points: to the first of them, at `q`, or else to `stop`.
abbrev pub link : Ptr → List Cell → Ptr → Ptr
link q [] stop = stop
link q (_ ∷ _) stop = q

abbrev pub Chain : Blocks → Ptr → Ptr → Ptr → List Cell → Ptr → Type 0
Chain f m prev p [] stop = Unit {0}
Chain f m prev p (c ∷ cs) stop =
    (f p ≡ some (header m prev (link (end_of p c) cs stop) c)) × Chain f m p (end_of p c) cs stop

-- The address of the last cell; `prev` if there is none.
abbrev pub last : Ptr → Ptr → List Cell → Ptr
last prev p [] = prev
last prev p (c ∷ cs) = last p (end_of p c) cs

-- A free cell with room for `length` bytes.
abbrev pub fits : ℕ → Cell → Bool
fits length c = is_free c.status && leb length c.size
