-- ===== src/Chain/Freed.antt =====
-- vgc_free as a whole on a pointer into the first MMAP block, where other blocks stay in use.
use vgc_malloc.Base.{
  ◌+◌, ◌-◌, ◌≡◌, refl, ◌<◌, true, false, List, ◌∷◌, ◌++◌, arith, ◌∙◌, sym, ap, ap_at, length,
  eqb_false, eqb_true, ltb-true,
}
use mathlib.Core.Path.{subst}
use vgc_malloc.Memory.{
  Ptr, null, MmapHeader, State, ok, is_free, sizeof_mmap_header, sizeof_malloc_header, shared_mutex,
  mmap_mutex,
}
use vgc_malloc.Memory.Ends
use vgc_malloc.Memory.Ends.{
  Ends, ends, After, After-Same, Same, load_block-ok, load_mmap-ok, store_mmap-ok,
}
use vgc_malloc.System.{System}
use vgc_malloc.System.Laws.{Locks, mutex_lock-Same}
use vgc_malloc.Malloc.Check.{is_in_mmap_block, in_mmap_loop}
use vgc_malloc.Malloc.Release.{page_of, free_block, vgc_free, release_if_free}
use vgc_malloc.Chain.{Cell, span}
use vgc_malloc.Chain.Frame.{Chain-split, span-append}
use vgc_malloc.Chain.Mmap.{IsMmap}
use vgc_malloc.Chain.FirstFit.{IsMmap-Same}
use vgc_malloc.Chain.Coalesce.{release_cell}
use vgc_malloc.Chain.Released.{
  Released, one_less, free_locked_lem, Released-Same, release_if_free-Same,
}

Same-Released :
    {s t u : State} {m : Ptr} {h : MmapHeader} {xs : List Cell} {c : Cell} {ys : List Cell}
    → Same s t
    → Released t m h xs c ys u
    → Released s m h xs c ys u
Same-Released same k = record {
  valid = k.valid;
  shared = k.shared ∙ same.shared;
  mapped = k.mapped ∙ same.mapped;
  bytes = k.bytes ∙ same.bytes;
  mmaps = rw (← same.mmaps) k.mmaps;
  outside = λ x o. k.outside x o ∙ ap_at same.blocks x;
}

-- isInMmapBlock finds a pointer into the first MMAP block.
is_in_mmap_block-first :
    (ptr : Ptr) (s : State) {h : MmapHeader} {cells : List Cell}
    → IsMmap s s.shared.mmap_block_first h cells
    → s.shared.mmap_block_first < ptr
    → ptr < s.shared.mmap_block_first + s.shared.mmap_block_size
    → is_in_mmap_block ptr s ≡ ok true s
unfolding is_in_mmap_block in_mmap_loop
is_in_mmap_block-first ptr s v low high =
    let m = s.shared.mmap_block_first in
    rw
      (
        eqb_false {a = m} {b = 0} (omega (arith, v.base)),
        load_mmap-ok m s (v.mapped m (omega arith) (omega (arith, v.filled))) v.here,
        ltb-true low,
        ltb-true high,
      )
      refl

module _ (sys : System) (locks : Locks sys) (m : Ptr) (h : MmapHeader) (xs : List Cell) (c : Cell)
    (ys : List Cell) where
  free_block_lem :
      {Q : Unit {0} → State → Type 0} (s : State)
      → IsMmap s m h (xs ++ c ∷ ys)
      → is_free c.status ≡ false
      → 0 < length (release_cell xs c ys)
      → ((u : State) → Released s m h xs c ys u → Ends Q (release_if_free sys m u))
      → Ends Q (free_block sys (m + sizeof_mmap_header + span xs) s)
  unfolding free_block
  free_block_lem s v used some_ next =
      let q : Ptr = m + sizeof_mmap_header + span xs in
      let part =
        (Chain-split s.blocks m null c ys null (m + sizeof_mmap_header) q xs refl v.chain).1 in
      let here = v.mapped m (omega arith) (omega (arith, v.filled)) in
      let there = v.mapped q (omega arith) (omega (arith, v.filled, span-append xs (c ∷ ys))) in
      rw
        (
          load_block-ok q s there part.0,
          load_mmap-ok m s here v.here,
          eqb_true v.check_start,
          eqb_true v.check_end,
          store_mmap-ok m s (one_less h) here,
        )
        (Ends.seq _ (mutex_lock-Same sys locks (mmap_mutex m) _) λ a t (e, same). rw e (
          free_locked_lem sys m h xs c ys s t v used some_
            (record {
              shared = same.shared;
              mapped = same.mapped;
              bytes = same.bytes;
              mmaps = same.mmaps;
              blocks = same.blocks;
            })
            next))

  -- The same with the guards of vgc_free, where isInMmapBlock finds the pointer.
  pub vgc_free_lem :
      {Q : Unit {0} → State → Type 0} (ptr : Ptr) (s : State)
      → IsMmap s m h (xs ++ c ∷ ys)
      → is_free c.status ≡ false
      → 0 < length (release_cell xs c ys)
      → 0 < ptr
      → ((t : State) → Same s t → is_in_mmap_block ptr t ≡ ok true t)
      → page_of s.shared.is_mprotect_enabled s.shared.page_size ptr - sizeof_malloc_header
        ≡ m + sizeof_mmap_header + span xs
      → ((u : State) → Released s m h xs c ys u → Ends Q (release_if_free sys m u))
      → Ends Q (vgc_free sys ptr s)
  unfolding vgc_free
  vgc_free_lem ptr s v used some_ pos inside found next =
      rw (eqb_false {a = ptr} {b = 0} (omega arith)) (
        Ends.seq _ (mutex_lock-Same sys locks shared_mutex s) λ a t (e, same).
          let found' : page_of t.shared.is_mprotect_enabled t.shared.page_size ptr
                - sizeof_malloc_header
              ≡ m + sizeof_mmap_header + span xs =
            rw same.shared found in
          rw (e, inside t same, found')
            (free_block_lem t (IsMmap-Same same v) used some_ λ u k. next u (Same-Released same k)))

  -- Where at least two blocks are left.
  pub vgc_free_found :
      (ptr : Ptr) (s : State)
      → IsMmap s m h (xs ++ c ∷ ys)
      → is_free c.status ≡ false
      → 1 < length (release_cell xs c ys)
      → 0 < ptr
      → ((t : State) → Same s t → is_in_mmap_block ptr t ≡ ok true t)
      → page_of s.shared.is_mprotect_enabled s.shared.page_size ptr - sizeof_malloc_header
        ≡ m + sizeof_mmap_header + span xs
      → Ends (λ _ t. Released s m h xs c ys t) (vgc_free sys ptr s)
  vgc_free_found ptr s v used two pos inside found =
      vgc_free_lem ptr s v used (omega arith) pos inside found λ u k.
        let w = k.valid in
        Ends.weaken
          (release_if_free-Same sys m (release_cell xs c ys) u w.chain
            (w.mapped (m + sizeof_mmap_header) (omega arith)
              (omega (arith, v.filled, span-append xs (c ∷ ys))))
            two)
          λ _ t same. Released-Same k same

  -- vgc_free on an address in the first MMAP block whose page is that behind the header of the busy
  -- cell `c`, where the MMAP block is well-formed, every lock is granted, and blocks are left after
  -- the joining: it ends without a fault, frees the cell and joins it with its free neighbours, leaves
  -- a well-formed MMAP block with one element less, and changes no header outside the MMAP block.
  pub vgc_free-Released :
      (ptr : Ptr) (s : State)
      → IsMmap s m h (xs ++ c ∷ ys)
      → is_free c.status ≡ false
      → 1 < length (release_cell xs c ys)
      → s.shared.mmap_block_first ≡ m
      → m < ptr
      → ptr < m + s.shared.mmap_block_size
      → page_of s.shared.is_mprotect_enabled s.shared.page_size ptr - sizeof_malloc_header
        ≡ m + sizeof_mmap_header + span xs
      → Ends (λ _ t. Released s m h xs c ys t) (vgc_free sys ptr s)
  vgc_free-Released ptr s v used two first low high found =
      vgc_free_found ptr s v used two (omega arith)
        (λ t same.
          let first' : t.shared.mmap_block_first ≡ m =
            ap (λ x. x.mmap_block_first) same.shared ∙ first in
          let size' : t.shared.mmap_block_size ≡ s.shared.mmap_block_size =
            ap (λ x. x.mmap_block_size) same.shared in
          is_in_mmap_block-first ptr t
            (subst (λ x. IsMmap t x h (xs ++ c ∷ ys)) (sym first') (IsMmap-Same same v))
            (omega (arith, first')) (omega (arith, first', size')))
        found
