-- ===== src/Heap.antt =====
-- The list of MMAP blocks of VGC_shared, as a predicate over the memory: the blocks are well-formed, lie
-- apart, and are linked both ways from mmapBlockFirst on.
pub mod Frame
pub mod Walk
pub mod Serve
pub mod Link
pub mod Grow
pub mod Malloc
pub mod Full
pub mod Torn
pub mod Made
pub mod Race
pub mod Inside
pub mod Free
pub mod Unlink
pub mod Release
pub mod Unmap
pub mod Dump
use vgc_malloc.Base.{ℕ, ◌+◌, ◌≡◌, ◌≤◌, ◌<◌, ◌⊎◌, List, [], ◌∷◌, length}
use vgc_malloc.Memory.{Ptr, null, MmapHeader, State}
use vgc_malloc.Chain.{Cell}
use vgc_malloc.Chain.Search.{NoneFits}
use vgc_malloc.Chain.Mmap.{IsMmap}

-- An MMAP block: its address, its header, and the cells that fill it.
pub record Region : Type 0 where
  pub at : Ptr
  pub head : MmapHeader
  pub cells : List Cell

abbrev pub region : Ptr → MmapHeader → List Cell → Region
region m h cells = record { at = m; head = h; cells = cells }

abbrev pub first_of : List Region → Ptr
first_of [] = null
first_of (r ∷ _) = r.at

-- The address of the last block; `last` if there is none.
abbrev pub last_of : Ptr → List Region → Ptr
last_of last [] = last
last_of last (r ∷ rs) = last_of r.at rs

-- The `n` bytes from `p` on are none of the block's.
abbrev pub Away : Ptr → ℕ → Region → Type 0
Away p n r = (p + n ≤ r.at) ⊎ (r.at + r.head.size ≤ p)

abbrev pub AllAway : Ptr → ℕ → List Region → Type 0
AllAway p n [] = Unit {0}
AllAway p n (r ∷ rs) = Away p n r × AllAway p n rs

abbrev pub Regions : State → Ptr → List Region → Type 0
Regions s prev [] = Unit {0}
Regions s prev (r ∷ rs) =
    IsMmap s r.at r.head r.cells
    × (r.head.prev ≡ prev)
    × (r.head.next ≡ first_of rs)
    × AllAway r.at r.head.size rs
    × Regions s r.at rs

-- No block has a free cell with room for `n` bytes.
abbrev pub NoRoom : ℕ → List Region → Type 0
NoRoom n [] = Unit {0}
NoRoom n (r ∷ rs) = NoneFits n r.cells × NoRoom n rs

-- The invariant of the allocator.
pub record IsHeap (s : State) (rs : List Region) : Type 0 where
  pub regions : Regions s null rs
  pub first : s.shared.mmap_block_first ≡ first_of rs
  pub count : s.shared.mmap_block_count ≡ length rs
