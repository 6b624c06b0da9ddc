-- ===== src/Chain/Guard.antt =====
-- The guard page of a block that vgc_free has freed and allocMallocBlock gives out again.
use vgc_malloc.Base.{
  ℕ, ◌+◌, ◌≡◌, ◌≢◌, refl, ◌<◌, ◌∙◌, Bool, true, false, List, ◌∷◌, ◌++◌, arith, sym, ap, ap_at,
  word_mod, add64, eqb_true, if◌then◌else◌, int_of_size,
}
use mathlib.Core.Path.{subst}
use vgc_malloc.Errno.{success}
use vgc_malloc.Memory.{
  Ptr, null, State, MallocHeader, MmapHeader, store_mmap, store_block, ◌>>◌, sizeof_malloc_header,
  sizeof_mmap_header,
}
use vgc_malloc.Memory.Where
use vgc_malloc.Memory.Where.{
  Where, Where-seq, Where-if, load_block-Where, ended, stored, where_rules,
}
use vgc_malloc.System.{System}
use vgc_malloc.Memory.Ends
use vgc_malloc.Memory.Ends.{Ends}
use vgc_malloc.Chain.{Cell, span, last, Chain}
use vgc_malloc.Chain.Mmap.{IsMmap}
use vgc_malloc.Chain.Frame.{Chain-split, span-append}
use vgc_malloc.Chain.Coalesce.{release_cell}
use vgc_malloc.Chain.RoundTrip.{release_cell-span}
use vgc_malloc.Chain.Free.{coalesce-Rewritten, Chain-in}
use vgc_malloc.Chain.Carve.{place}
use vgc_malloc.Chain.Alloc.{carve-Carved}
use vgc_malloc.Mprotect.Laws.{mprotect-open, munprotect-open}
use vgc_malloc.Mprotect.{do_mprotect, munprotect}
use vgc_malloc.Malloc.Block.{
  set_prev, split_block, take_block, stacktrace_save, carve, round_length, user_address,
  free_blocks_next, free_blocks_prev,
}
use vgc_malloc.Malloc.Release.{coalesce}

-- The page at `p` is open.
abbrev IsOpen : Ptr → State → Type 0
IsOpen p s = s.guarded p ≡ false

module _ (p : Ptr) where
  store_mmap-IsOpen :
      (q : Ptr) (x : MmapHeader) (s : State) → IsOpen p s → Where (IsOpen p) (store_mmap q x s)
  unfolding store_mmap
  store_mmap-IsOpen q x s e = stored (IsOpen p) (record s { mmaps = _ }) (s.mapped q) e

  store_block-IsOpen :
      (q : Ptr) (x : MallocHeader) (s : State) → IsOpen p s → Where (IsOpen p) (store_block q x s)
  unfolding store_block
  store_block-IsOpen q x s e = stored (IsOpen p) (record s { blocks = _ }) (s.mapped q) e

  set_prev-IsOpen : (x q : Ptr) (s : State) → IsOpen p s → Where (IsOpen p) (set_prev x q s)
  unfolding set_prev
  set_prev-IsOpen x q s e = search (where_rules, store_block-IsOpen) depth 12

module _ (sys : System) (p : Ptr) where
  free_blocks_next-IsOpen :
      (q : Ptr) (s : State) → IsOpen p s → Where (IsOpen p) (free_blocks_next sys q s)
  unfolding free_blocks_next
  free_blocks_next-IsOpen q s e =
      search (where_rules, munprotect-open sys p, store_block-IsOpen, set_prev-IsOpen) depth 12

  free_blocks_prev-IsOpen :
      (q : Ptr) (s : State) → IsOpen p s → Where (IsOpen p) (free_blocks_prev sys q s)
  unfolding free_blocks_prev
  free_blocks_prev-IsOpen q s e =
      search (where_rules, munprotect-open sys p, store_block-IsOpen, set_prev-IsOpen) depth 12

  split_block-IsOpen :
      (m q : Ptr) (n : ℕ) (s : State)
      → p ≢ q + n
      → IsOpen p s
      → Where (IsOpen p) (split_block sys m q n s)
  unfolding split_block
  split_block-IsOpen m q n s d e =
      search (where_rules, mprotect-open sys p, store_block-IsOpen) depth 12

  take_block-IsOpen :
      (m q : Ptr) (n : ℕ) (x : Ptr) (s : State)
      → IsOpen p s
      → Where (IsOpen p) (take_block sys m q n x s)
  unfolding take_block
  take_block-IsOpen m q n x s e =
      search (where_rules, store_mmap-IsOpen, store_block-IsOpen, set_prev-IsOpen) depth 12

  stacktrace_save-IsOpen :
      (q : Ptr) (s : State) → IsOpen p s → Where (IsOpen p) (stacktrace_save sys q s)
  unfolding stacktrace_save
  stacktrace_save-IsOpen q s e = ended e

  -- The two ways to give the block out.
  cut-IsOpen :
      (m : Ptr) (n size : ℕ) (x y z : Ptr) (b : Bool) (s : State)
      → p ≢ p + size
      → IsOpen p s
      → Where (IsOpen p) (
          (if b
              then (do split_block sys m p size; take_block sys m p n x)
              else take_block sys m p y z)
            s)
  cut-IsOpen m n size x y z true s d e =
      Where-seq _ (split_block-IsOpen m p size s d e) λ _ t o. take_block-IsOpen m p n x t o
  cut-IsOpen m n size x y z false s d e = take_block-IsOpen m p y z s e

  -- The page of the block that is given out stays as it is.
  carve-IsOpen :
      (m : Ptr) (n : ℕ) (s : State)
      → 0
        < add64
            (round_length s.shared.is_mprotect_enabled s.shared.page_size n)
            sizeof_malloc_header
      → IsOpen p s
      → Where (IsOpen p) (carve sys m p n s)
  unfolding carve
  carve-IsOpen m n s pos e = Where-seq _ (load_block-Where (IsOpen p) p s e) λ b t o.
      Where-seq _ (cut-IsOpen m _ _ _ _ _ _ t (omega arith) o)
        λ _ u o'. search (where_rules, stacktrace_save-IsOpen)

  module _ (granted : (n : ℕ) (q : Ptr) → sys.mprotect n q ≡ success) where
    munprotect-IsOpen : (s : State) → Where (IsOpen p) (munprotect sys p s)
    unfolding munprotect do_mprotect
    munprotect-IsOpen s =
        rw (do_mprotect, granted s.calls p) (ended (rw (eqb_true {a = p} {b = p} refl)))

    -- Freeing opens the page of the block.
    coalesce-IsOpen : (s : State) → Where (IsOpen p) (coalesce sys p s)
    unfolding coalesce store_block
    coalesce-IsOpen s = Where-seq _ (load_block-Where (λ _. Unit {0}) p s tt) λ b t e.
        Where-seq _ (stored (λ _. Unit {0}) _ (t.mapped p) tt) λ _ u e'.
          Where-seq _ (munprotect-IsOpen u) λ _ v o.
            Where-seq _ (free_blocks_next-IsOpen p v o) λ _ w o'. free_blocks_prev-IsOpen p w o'

module _ (sys : System) (m : Ptr) (h : MmapHeader) (xs : List Cell) (c d : Cell) (ys zs : List Cell)
    (len : ℕ) (s : State) where
  -- The guard page is not closed again. On a well-formed MMAP block, where mprotect succeeds, the
  -- block before is not free, and the rounded length with a header stays below 2 ^ 64: freeing a
  -- block, with its joining, and then cutting it for an allocation ends without a fault, gives out
  -- the address behind its header, and leaves the page of that header open.
  pub coalesce-carve :
      (let n = round_length s.shared.is_mprotect_enabled s.shared.page_size len in
        let q : Ptr = m + sizeof_mmap_header + span xs in
        ((k : ℕ) (x : Ptr) → sys.mprotect k x ≡ success)
        → IsMmap s m h (xs ++ c ∷ ys)
        → release_cell xs c ys ≡ xs ++ d ∷ zs
        → n + sizeof_malloc_header < word_mod
        → Ends
            (λ a t.
              (a ≡ user_address s.shared.is_mprotect_enabled s.shared.page_size (int_of_size len) q)
              × Chain t.blocks m (last null (m + sizeof_mmap_header) xs) q (place n d ++ zs) null
              × IsOpen q t)
            ((do coalesce sys q; carve sys m q len) s))
  coalesce-carve granted v e nowrap =
      let q : Ptr = m + sizeof_mmap_header + span xs in
      let all : span (xs ++ d ∷ zs) ≡ span (xs ++ c ∷ ys) =
        ap span (sym e) ∙ release_cell-span xs c ys in
      let at : span (xs ++ d ∷ zs) ≡ span xs + span (d ∷ zs) = span-append xs (d ∷ zs) in
      Ends.seq _
        (Where.Ends-Where
          (coalesce-Rewritten sys m (m + sizeof_mmap_header) s xs c ys q refl v.chain (omega arith)
            (λ x lo hi. v.mapped x (omega arith) (omega (arith, v.filled)))
            (omega (arith, v.filled, v.within, v.bound)))
          (coalesce-IsOpen sys q granted s))
        λ _ t (k, o).
          let part =
            (Chain-split t.blocks m null d zs null (m + sizeof_mmap_header) q xs refl (
              subst (λ r. Chain t.blocks m null (m + sizeof_mmap_header) r null) e
                (Chain-in k))).1 in
          let in_t = ap_at k.after.mapped in
          let top : t.shared ≡ s.shared = k.after.shared in
          Ends.weaken
            (Where.Ends-Where
              (carve-Carved t m h (last null (m + sizeof_mmap_header) xs) q d zs sys len part
                (in_t m ∙ v.mapped m (omega arith) (omega (arith, v.filled)))
                (ap_at k.after.mmaps m ∙ v.here)
                (λ x lo hi. in_t x ∙ v.mapped x (omega arith) (omega (arith, v.filled, all, at)))
                (omega (arith, v.filled, all, at, v.within, v.bound)) (rw top nowrap))
              (carve-IsOpen sys q m len t (rw top (omega (arith, nowrap))) o))
            λ a u ((x, y), z). (rw (← top) x, rw (← top, y.after.blocks) y.chain, z)
