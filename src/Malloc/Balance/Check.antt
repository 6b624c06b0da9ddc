-- ===== src/Malloc/Balance/Check.antt =====
-- The checks and the dump of src/vgc_malloc.c take no lock.
use vgc_malloc.Base.{◌≡◌, ℕ, zero, suc, String, Bool, true, false}
use vgc_malloc.Memory.{Ptr, MmapHeader}
use vgc_malloc.Memory.Locking.{Balanced, lock_rules}
use vgc_malloc.Malloc.Check.{
  end_check, check_loop, check_mmap_block, in_mmap_loop, is_in_mmap_block,
}
use vgc_malloc.Malloc.Sizes.{Sizes}
use vgc_malloc.Malloc.Dump.{dump_printed}
use vgc_malloc.Malloc.Quiet.{dump_printed-Where}

pub dump_printed-Balanced : (m : Ptr) → Balanced (dump_printed m)
dump_printed-Balanced m h s e = dump_printed-Where (λ t. t.held ≡ h) m s e

end_check-Balanced : (str : String) (m : Ptr) (b : Bool) → Balanced (end_check str m b)
end_check-Balanced str m true h s e = search lock_rules
end_check-Balanced str m false h s e = search (lock_rules, dump_printed-Balanced) depth 12

check_loop-Balanced :
    (str : String) (k : ℕ) (m : Ptr) (x : MmapHeader) (p : Ptr) (z : Sizes)
    → Balanced (check_loop str k m x p z)
unfolding check_loop
check_loop-Balanced str zero m x p z h s e = search lock_rules
check_loop-Balanced str (suc k) m x p z h s e =
    search (lock_rules, end_check-Balanced, dump_printed-Balanced, check_loop-Balanced str k) depth
      12

pub check_mmap_block-Balanced : (str : String) (m : Ptr) → Balanced (check_mmap_block str m)
unfolding check_mmap_block
check_mmap_block-Balanced str m h s e = search (lock_rules, check_loop-Balanced)

in_mmap_loop-Balanced : (k : ℕ) (p m : Ptr) → Balanced (in_mmap_loop k p m)
unfolding in_mmap_loop
in_mmap_loop-Balanced zero p m h s e = search lock_rules
in_mmap_loop-Balanced (suc k) p m h s e = search (lock_rules, in_mmap_loop-Balanced k) depth 12

pub is_in_mmap_block-Balanced : (p : Ptr) → Balanced (is_in_mmap_block p)
unfolding is_in_mmap_block
is_in_mmap_block-Balanced p h s e = search (lock_rules, in_mmap_loop-Balanced)
