-- ===== src/Malloc/Address.antt =====
-- The address that allocMallocBlock hands out for a block, against the bytes of the block and against
-- the header that vgc_free finds from it.
use vgc_malloc.Base.{ℕ, ◌+◌, ◌-◌, ◌%◌, ◌≡◌, ◌≢◌, ◌<◌, ◌↔◌, true, arith, int_of_size}
use vgc_malloc.Memory.{Ptr, sizeof_malloc_header}
use vgc_malloc.Malloc.Block.{round_length, user_address}
use vgc_malloc.Malloc.Release.{page_of}

pub int_of_size_small : (len : ℕ) → len < 2147483648 → int_of_size len ≡ len
int_of_size_small len h = ground arith

round_up :
    (len : ℕ)
    → len < 2147483648
    → len % 4096 ≢ 0
    → round_length true 4096 len ≡ len + (4096 - len % 4096)
round_up len h off = ground arith

round_same : (len : ℕ) → len % 4096 ≡ 0 → round_length true 4096 len ≡ len
round_same len h = ground arith

-- With guard pages of 4096 bytes, the memory handed out for a length below 2 ^ 31 that is no multiple
-- of the page lies inside the rounded block behind the header at `p`, and ends where that ends.
pub user_address_within :
    (p : Ptr) (len : ℕ)
    → len < 2147483648
    → len % 4096 ≢ 0
    → let a = user_address true 4096 (int_of_size len) p in
      (p + sizeof_malloc_header < a)
      × (a + len ≡ p + sizeof_malloc_header + round_length true 4096 len)
user_address_within p len h off =
    let i = int_of_size_small len h in let r = round_up len h off in ground (arith, i, r)

-- For a multiple of the page the memory handed out is shifted by a whole page: it reaches one page
-- beyond the end of the rounded block.
pub user_address_overrun :
    (p : Ptr) (len : ℕ)
    → len < 2147483648
    → len % 4096 ≡ 0
    → user_address true 4096 (int_of_size len) p + len
      ≡ p + sizeof_malloc_header + round_length true 4096 len + 4096
user_address_overrun p len h on =
    let i = int_of_size_small len h in let r = round_same len on in ground (arith, i, r)

-- vgc_free finds the header at `p`, the start of a page, from the address that was handed out for
-- it, exactly if the length was no multiple of the page.
pub header_of_user_address :
    (p : Ptr) (len : ℕ)
    → len < 2147483648
    → p % 4096 ≡ 0
    → (page_of true 4096 (user_address true 4096 (int_of_size len) p) - sizeof_malloc_header ≡ p)
      ↔ (len % 4096 ≢ 0)
header_of_user_address p len h start =
    rw (int_of_size_small len h) ((λ e on. omega arith), (λ off. omega arith))
