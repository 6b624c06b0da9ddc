-- ===== src/Memory/Locking.antt =====
-- The locks that code takes and gives up.
use vgc_malloc.Base.{ℕ, ◌&&◌, ◌≡◌, List}
use vgc_malloc.Memory.{
  Ptr, MmapHeader, MallocHeader, Mutex, State, Run, M, and_then, store_mmap, store_block, is_usable,
  mem_set, mem_copy,
}
use vgc_malloc.Memory.Where.{Where, ended, stored, Where-seq, where_rules}

-- Where a run ends, these locks are held.
abbrev pub Leaves : List Mutex → {A : Type 0} → Run A → Type 0
Leaves h r = Where (λ t. t.held ≡ h) r

-- A run from a state with some locks ends with the same.
abbrev pub Balanced : {A : Type 0} → M A → Type 0
Balanced m = (h : List Mutex) (s : State) → s.held ≡ h → Leaves h (m s)

-- With the locks `g` in between.
pub Leaves-seq :
    (g : List Mutex) {h : List Mutex} {A B : Type 0} {r : Run A} (k : A → M B)
    → Leaves g r
    → ((a : A) (t : State) → t.held ≡ g → Leaves h (k a t))
    → Leaves h (and_then r k)
Leaves-seq g k l next = Where-seq k l next

pub store_mmap-Balanced : (p : Ptr) (x : MmapHeader) → Balanced (store_mmap p x)
unfolding store_mmap
store_mmap-Balanced p x h s e = stored (λ t. t.held ≡ h) (record s { mmaps = _ }) (s.mapped p) e

pub store_block-Balanced : (p : Ptr) (x : MallocHeader) → Balanced (store_block p x)
unfolding store_block
store_block-Balanced p x h s e = stored (λ t. t.held ≡ h) (record s { blocks = _ }) (s.mapped p) e

pub mem_set-Balanced : (p : Ptr) (v n : ℕ) → Balanced (mem_set p v n)
unfolding mem_set
mem_set-Balanced p v n h s e = stored (λ t. t.held ≡ h) (record s { bytes = _ }) (is_usable p n s) e

pub mem_copy-Balanced : (p q : Ptr) (n : ℕ) → Balanced (mem_copy p q n)
unfolding mem_copy
mem_copy-Balanced p q n h s e =
    stored (λ t. t.held ≡ h) (record s { bytes = _ }) (is_usable p n s && is_usable q n s) e

pub ruleset lock_rules =
    (where_rules, store_mmap-Balanced, store_block-Balanced, mem_set-Balanced, mem_copy-Balanced)
