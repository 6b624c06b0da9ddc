-- ===== src/Memory.antt =====
-- The memory that src/vgc_malloc.c works on, from src/vgc_malloc_private.h: the two headers that
-- stand in the mapped memory, the shared record, and the protection of guard pages; and the monad of
-- code over it. The build is that of the Makefile (VGC_MALLOC_MPROTECT and VGC_MALLOC_STACKTRACE
-- set, VGC_MALLOC_MPROTECT_PKEY and VGC_MALLOC_MPROTECT_MP not), which fixes the layout: an MMAP
-- header fills one page of 4096 bytes, and a malloc header two, the first of them the guard page.
pub mod Ends
pub mod Where
pub mod Locking
use vgc_malloc.Base.{
  ℕ, zero, suc, ◌+◌, ◌%◌, not, String, Bool, true, false, ◌&&◌, Option, none, some, List, ◌∷◌, ◌==◌,
  leb, ltb, if◌then◌else◌, word_mod, ◌-◌,
}
use vgc_malloc.Errno.{Message, message}

abbrev pub Ptr : Type 0
Ptr = ℕ

abbrev pub null : Ptr
null = 0

-- `MAP_FAILED`, the address (void *)-1.
abbrev pub map_failed : Ptr
map_failed = word_mod - 1

abbrev pub sizeof_mmap_header : ℕ
sizeof_mmap_header = 4096

abbrev pub sizeof_malloc_header : ℕ
sizeof_malloc_header = 8192

-- The length of a guard page.
abbrev pub guard_size : ℕ
guard_size = 4096

-- The value of `checkStart` and `checkEnd`, 0xAA.
abbrev pub check_mark : ℕ
check_mark = 0xaa

pub data MallocStatus : Type 0 where
  free busy : MallocStatus

abbrev pub is_free : MallocStatus → Bool
is_free free = true
is_free busy = false

-- `VGC_mmapHeader`. Its mutex is among the locks below, and its field `free` is never used.
pub record MmapHeader : Type 0 where
  pub check_start : ℕ
  pub size : ℕ
  pub max_size : ℕ
  pub elements : ℕ
  pub prev : Ptr
  pub next : Ptr
  pub check_end : ℕ

-- `VGC_mallocHeader`. `btArray` is kept apart, in `traces` below.
pub record MallocHeader : Type 0 where
  pub check_start : ℕ
  pub size : ℕ
  pub status : MallocStatus
  pub mmap_block : Ptr
  pub prev : Ptr
  pub next : Ptr
  pub check_end : ℕ

-- `VGC_shared`, less its mutex.
pub record Shared : Type 0 where
  pub pid : ℕ
  pub page_size : ℕ
  pub mmap_block_first : Ptr
  pub mmap_block_count : ℕ
  pub mmap_block_size : ℕ
  pub is_mprotect_enabled : Bool

-- The mutex of the shared record, and that of the MMAP block at an address.
pub data Mutex : Type 0 where
  shared_mutex : Mutex
  mmap_mutex : Ptr → Mutex

abbrev pub same_mutex : Mutex → Mutex → Bool
same_mutex shared_mutex shared_mutex = true
same_mutex (mmap_mutex p) (mmap_mutex q) = p == q
same_mutex _ _ = false

pub record State : Type 0 where
  pub shared : Shared
  pub mapped : Ptr → Bool  -- addresses of the mapped MMAP blocks
  pub mmaps : Ptr → Option MmapHeader
  pub blocks : Ptr → Option MallocHeader
  pub guarded : Ptr → Bool  -- headers whose page `protect` is PROT_NONE
  pub traces : Ptr → List ℕ  -- the saved backtrace of a header
  pub bytes : Ptr → ℕ  -- the user's memory
  pub held : List Mutex  -- locks held, the latest first
  pub log : List Message  -- messages at ERROR_LEVEL, the latest first
  pub calls : ℕ  -- system calls made so far

-- `fault` is an access outside the mapped memory, or to memory that holds no header.
pub data Run (A : Type 0) : Type 0 where
  ok : A → State → Run A
  fault : Run A
  out_of_fuel : Run A

abbrev pub M : Type 0 → Type 0
M A = State → Run A

abbrev pub pure : {A : Type 0} → A → M A
pure a s = ok a s

abbrev pub and_then : {A B : Type 0} → Run A → (A → M B) → Run B
and_then (ok a s) k = k a s
and_then fault k = fault
and_then out_of_fuel k = out_of_fuel

infixl 5 ◌>>=◌ ◌>>◌
abbrev pub ◌>>=◌ : {A B : Type 0} → M A → (A → M B) → M B
m >>= k = λ s. and_then (m s) k

abbrev pub ◌>>◌ : {B : Type 0} → M (Unit {0}) → M B → M B
m >> n = m >>= λ _. n

-- `if (test) m;`
abbrev pub when : Bool → M (Unit {0}) → M (Unit {0})
when b m = if b then m else pure tt

abbrev pub get_shared : M Shared
get_shared s = ok s.shared s

abbrev pub set_shared : Shared → M (Unit {0})
set_shared x s = ok tt (record s { shared = x })

-- `vgc_message` at ERROR_LEVEL.
abbrev pub report : String → String → String → M (Unit {0})
report t u v s = ok tt (record s { log = message t u v ∷ s.log })

abbrev pub update {ℓ} : {A : Type ℓ} → (Ptr → A) → Ptr → A → Ptr → A
update f p a q = if q == p then a else f q

-- Writes `a` at the addresses from `p` on, `n` of them.
abbrev pub update_range {ℓ} : {A : Type ℓ} → (Ptr → A) → Ptr → ℕ → A → Ptr → A
update_range f p n a q = if leb p q && ltb q (p + n) then a else f q

-- `*p` for an MMAP header.
unfoldable pub load_mmap : Ptr → M MmapHeader
load_mmap p s = if s.mapped p then elim (s.mmaps p) [ none ↦ fault | some h ↦ ok h s ] else fault

unfoldable pub store_mmap : Ptr → MmapHeader → M (Unit {0})
store_mmap p h s =
    if s.mapped p then ok tt (record s { mmaps = update s.mmaps p (some h) }) else fault

-- `*p` for a malloc header.
unfoldable pub load_block : Ptr → M MallocHeader
load_block p s = if s.mapped p then elim (s.blocks p) [ none ↦ fault | some h ↦ ok h s ] else fault

unfoldable pub store_block : Ptr → MallocHeader → M (Unit {0})
store_block p h s =
    if s.mapped p then ok tt (record s { blocks = update s.blocks p (some h) }) else fault

-- The `n` bytes from `p` on are mapped, and none stands in a page that is closed.
unfoldable pub is_usable : Ptr → ℕ → State → Bool
is_usable p zero s = true
is_usable p (suc n) s =
    let rest = is_usable (suc p) n s in
    if s.mapped p && not (s.guarded (p - p % guard_size)) then rest else false

-- memset
unfoldable pub mem_set : Ptr → ℕ → ℕ → M (Unit {0})
mem_set p v n s =
    if is_usable p n s then ok tt (record s { bytes = update_range s.bytes p n v }) else fault

-- memcpy
unfoldable pub mem_copy : Ptr → Ptr → ℕ → M (Unit {0})
mem_copy to from n s =
    if is_usable to n s && is_usable from n s
    then ok tt (record s {
      bytes = λ q. if leb to q && ltb q (to + n) then s.bytes (from + (q - to)) else s.bytes q;
    })
    else fault
