-- ===== src/Memory/Ends.antt =====
-- Total correctness of a run: it neither faults nor runs out of fuel, and its result and final state
-- have a property.
use vgc_malloc.Errno.{Message}
use vgc_malloc.Base.{List, ◌≡◌, refl, true, ◌∙◌, Option, some, arith}
use vgc_malloc.Memory.{
  Ptr, MmapHeader, MallocHeader, State, Run, ok, M, and_then, update, load_block, store_block,
  load_mmap, store_mmap,
}

pub data Ends {A : Type 0} (P : A → State → Type 0) : Run A → Type 0 where
  ends : {a : A} {s : State} → P a s → Ends P (ok a s)

module _ {A : Type 0} {P : A → State → Type 0} where
  pub seq :
      {B : Type 0} {Q : B → State → Type 0} {r : Run A} (k : A → M B)
      → Ends P r
      → ((a : A) (s : State) → P a s → Ends Q (k a s))
      → Ends Q (and_then r k)
  seq k (ends p) next = next _ _ p

  pub weaken :
      {Q : A → State → Type 0} {r : Run A}
      → Ends P r
      → ((a : A) (s : State) → P a s → Q a s)
      → Ends Q r
  weaken (ends p) f = ends (f _ _ p)

-- The final state `t` has the mapped memory, the shared record and the user's bytes of `s`, and
-- these headers; locks, messages, backtraces and guards may differ.
pub record After (s : State) (mm : Ptr → Option MmapHeader) (bl : Ptr → Option MallocHeader)
    (t : State) : Type 0 where
  pub shared : t.shared ≡ s.shared
  pub mapped : t.mapped ≡ s.mapped
  pub bytes : t.bytes ≡ s.bytes
  pub mmaps : t.mmaps ≡ mm
  pub blocks : t.blocks ≡ bl

abbrev pub Same : State → State → Type 0
Same s t = After s s.mmaps s.blocks t

pub Same-refl : (s : State) → Same s s
Same-refl s = record { shared = refl; mapped = refl; bytes = refl; mmaps = refl; blocks = refl }

-- A message is printed.
pub Same-log : (log : List Message) (s : State) → Same s (record s { log = log })
Same-log log s = record { shared = refl; mapped = refl; bytes = refl; mmaps = refl; blocks = refl }

-- A step that changes no header, before and after the others.
module _ {s t u : State} {mm : Ptr → Option MmapHeader} {bl : Ptr → Option MallocHeader} where
  pub After-Same : After s mm bl t → Same t u → After s mm bl u
  After-Same a b = record {
    shared = b.shared ∙ a.shared;
    mapped = b.mapped ∙ a.mapped;
    bytes = b.bytes ∙ a.bytes;
    mmaps = b.mmaps ∙ a.mmaps;
    blocks = b.blocks ∙ a.blocks;
  }

module _ (p : Ptr) (s : State) where
  pub load_block-ok :
      {b : MallocHeader} → s.mapped p ≡ true → s.blocks p ≡ some b → load_block p s ≡ ok b s
  unfolding load_block
  load_block-ok e h = ground arith

  pub load_mmap-ok :
      {b : MmapHeader} → s.mapped p ≡ true → s.mmaps p ≡ some b → load_mmap p s ≡ ok b s
  unfolding load_mmap
  load_mmap-ok e h = ground arith

  pub store_block-ok :
      (b : MallocHeader)
      → s.mapped p ≡ true
      → store_block p b s ≡ ok tt (record s { blocks = update s.blocks p (some b) })
  unfolding store_block
  store_block-ok b e = ground arith

  pub store_mmap-ok :
      (b : MmapHeader)
      → s.mapped p ≡ true
      → store_mmap p b s ≡ ok tt (record s { mmaps = update s.mmaps p (some b) })
  unfolding store_mmap
  store_mmap-ok b e = ground arith
