-- ===== src/Malloc/Quiet.antt =====
-- dumpMmapBlock of src/vgc_malloc.c leaves alone what vgc_stacktraceShow does.
use vgc_malloc.Base.{ℕ, zero, suc, Option}
use vgc_malloc.Memory.{Ptr, State, M}
use vgc_malloc.Memory.Where.{Where, ended, where_rules}
use vgc_malloc.Malloc.Sizes.{Sizes}
use vgc_malloc.Malloc.Dump.{Line, Response, dump_loop, dump_mmap_block, dump_printed, quiet}

module _ (R : State → Type 0) where
  module _ (width : Line → ℕ) (show : Ptr → M (Unit {0}))
      (keeps : (p : Ptr) (s : State) → R s → Where R (show p s)) where
    dump_loop-Where :
        (k size i : ℕ) (p : Ptr) (z : Sizes) (r : Option Response) (s : State)
        → R s
        → Where R (dump_loop width show k size i p z r s)
    unfolding dump_loop
    dump_loop-Where zero size i p z r s e = search where_rules
    dump_loop-Where (suc k) size i p z r s e =
        search (where_rules, keeps, dump_loop-Where k) depth 12

    pub dump_mmap_block-Where :
        (r : Option Response) (size : ℕ) (m : Ptr) (s : State)
        → R s
        → Where R (dump_mmap_block width show r size m s)
    unfolding dump_mmap_block
    dump_mmap_block-Where r size m s e = search (where_rules, dump_loop-Where) depth 12

  quiet-Where : (p : Ptr) (s : State) → R s → Where R (quiet p s)
  quiet-Where p s e = ended e

  pub dump_printed-Where : (m : Ptr) (s : State) → R s → Where R (dump_printed m s)
  unfolding dump_printed
  dump_printed-Where m s e =
      search (where_rules, dump_mmap_block-Where (λ _. 0) quiet quiet-Where) depth 12
