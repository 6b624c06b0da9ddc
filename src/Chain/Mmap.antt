-- ===== src/Chain/Mmap.antt =====
-- A well-formed MMAP block: its header, the chain of its malloc headers, and the mapped memory.
use vgc_malloc.Base.{
  ℕ, ◌+◌, ◌≡◌, ◌<◌, ◌≤◌, true, some, List, [], ◌∷◌, ◌++◌, arith, word_mod, length, if◌then◌else◌,
}
use vgc_malloc.Memory.{
  Ptr, null, check_mark, is_free, MmapHeader, State, sizeof_mmap_header, sizeof_malloc_header,
}
use vgc_malloc.Chain.{Cell, span, Chain}

-- The blocks in use.
abbrev pub busy_cells : List Cell → ℕ
busy_cells [] = 0
busy_cells (c ∷ cs) = (if is_free c.status then 0 else 1) + busy_cells cs

pub record IsMmap (s : State) (m : Ptr) (h : MmapHeader) (cells : List Cell) : Type 0 where
  pub base : 0 < m
  pub here : s.mmaps m ≡ some h
  pub chain : Chain s.blocks m null (m + sizeof_mmap_header) cells null
  pub nonempty : 0 < length cells
  pub filled : sizeof_mmap_header + span cells ≡ h.size
  pub max : h.max_size + sizeof_mmap_header + sizeof_malloc_header ≡ h.size
  pub within : h.size ≤ s.shared.mmap_block_size
  pub bound : m + s.shared.mmap_block_size < word_mod
  pub mapped : (q : Ptr) → m ≤ q → q < m + h.size → s.mapped q ≡ true
  pub elements : h.elements ≡ busy_cells cells
  pub check_start : h.check_start ≡ check_mark
  pub check_end : h.check_end ≡ check_mark

-- What checkMmapBlock relies on: all but the counter of the elements and the marks.
pub record IsLaid (s : State) (m : Ptr) (h : MmapHeader) (cells : List Cell) : Type 0 where
  pub base : 0 < m
  pub here : s.mmaps m ≡ some h
  pub chain : Chain s.blocks m null (m + sizeof_mmap_header) cells null
  pub nonempty : 0 < length cells
  pub filled : sizeof_mmap_header + span cells ≡ h.size
  pub max : h.max_size + sizeof_mmap_header + sizeof_malloc_header ≡ h.size
  pub within : h.size ≤ s.shared.mmap_block_size
  pub mapped : (q : Ptr) → m ≤ q → q < m + h.size → s.mapped q ≡ true

pub IsMmap-IsLaid :
    {s : State} {m : Ptr} {h : MmapHeader} {cells : List Cell}
    → IsMmap s m h cells
    → IsLaid s m h cells
IsMmap-IsLaid v = record {
  base = v.base;
  here = v.here;
  chain = v.chain;
  nonempty = v.nonempty;
  filled = v.filled;
  max = v.max;
  within = v.within;
  mapped = v.mapped;
}

pub busy_cells-le : (cs : List Cell) → busy_cells cs + length cs ≤ span cs
busy_cells-le [] = omega arith
busy_cells-le (c ∷ cs) = ground (arith, busy_cells-le cs)

pub busy_cells-append : (xs ys : List Cell) → busy_cells (xs ++ ys) ≡ busy_cells xs + busy_cells ys
busy_cells-append [] ys = omega arith
busy_cells-append (x ∷ xs) ys = omega (arith, busy_cells-append xs ys)
