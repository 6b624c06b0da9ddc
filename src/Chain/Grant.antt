-- ===== src/Chain/Grant.antt =====
-- allocMallocBlock as a whole: the lock, the search, the check and the cut.
use vgc_malloc.Base.{
  ℕ, suc, ◌+◌, ◌≡◌, refl, ◌<◌, ◌≤◌, ◌⊎◌, List, [], ◌∷◌, arith, inl, inr, ◌∙◌, sym, ap, ap_at,
  length, eqb_false, eqb_true, not, if◌then◌else◌,
}
use mathlib.Core.Path.{subst}
use vgc_malloc.Memory.{
  Ptr, null, MmapHeader, State, ok, sizeof_mmap_header, mmap_mutex, ◌>>=◌, ◌>>◌, pure, report,
}
use vgc_malloc.Memory.Ends
use vgc_malloc.Memory.Ends.{Ends, ends, After, Same, After-Same}
use vgc_malloc.System.{System}
use vgc_malloc.System.Laws.{Locks, mutex_lock-Same}
use vgc_malloc.Malloc.Locks.{unlock_mmap, unlock_or_report-Same}
use vgc_malloc.Malloc.Check.{check_mmap_block}
use vgc_malloc.Malloc.Block.{round_length, find_free, carve, alloc_malloc_block}
use vgc_malloc.Chain.{Cell, span, link, last}
use vgc_malloc.Chain.Frame.{Chain-split, span-append}
use vgc_malloc.Chain.Alloc.{carve-Carved}
use vgc_malloc.Chain.Search.{locate, NoneFits, FirstFit, locate-FirstFit, find_free-locate}
use vgc_malloc.Chain.Mmap.{IsMmap}
use vgc_malloc.Chain.Check.{check_mmap_block-Same}
use vgc_malloc.Chain.Printed.{length-le-span}
use vgc_malloc.Chain.FirstFit.{Allocated, IsMmap-Same, Carved-IsMmap, round_length-bounds}

link-nonempty : (p : Ptr) (cs : List Cell) → 0 < length cs → link p cs null ≡ p
link-nonempty p [] h = absurd (omega arith)
link-nonempty p (c ∷ cs) h = refl

-- What allocMallocBlock does: nothing, where no cell fits, or first fit.
abbrev pub Granted : State → Ptr → MmapHeader → List Cell → ℕ → Ptr → State → Type 0
Granted s m h cells len a t =
    ((a ≡ null) × NoneFits len cells × Same s t) ⊎ Allocated s m h cells len a t

pub Allocated-Same :
    {s t u : State} {m : Ptr} {h : MmapHeader} {cells : List Cell} {len a : ℕ}
    → Same s t
    → Allocated t m h cells len a u
    → Allocated s m h cells len a u
Allocated-Same {len} same k = record {
  place = k.place;
  found = k.found;
  address = rw (← same.shared) k.address;
  valid = rw (← same.shared) k.valid;
  shared = k.shared ∙ same.shared;
  mapped = k.mapped ∙ same.mapped;
  bytes = k.bytes ∙ same.bytes;
  mmaps = rw (← same.mmaps) k.mmaps;
  outside = λ x o. k.outside x o ∙ ap_at same.blocks x;
}

module _ (sys : System) {s : State} {m : Ptr} {h : MmapHeader} {cells : List Cell} (len : ℕ) where
  search :
      IsMmap s m h cells
      → find_free (suc s.shared.mmap_block_size) (m + sizeof_mmap_header) len s
        ≡ ok (locate len (m + sizeof_mmap_header) cells) s
  search v =
      ap (λ p. find_free (suc s.shared.mmap_block_size) p len s)
        (sym (link-nonempty (m + sizeof_mmap_header) cells v.nonempty))
      ∙ find_free-locate len (suc s.shared.mmap_block_size) m null (m + sizeof_mmap_header) cells s
          v.chain (omega arith) (λ q a b. v.mapped q (omega arith) (omega (arith, v.filled)))
          (omega (arith, v.filled, v.within, length-le-span cells))

  grant :
      (q : Ptr)
      → s.shared.page_size ≡ 4096
      → IsMmap s m h cells
      → FirstFit len (m + sizeof_mmap_header) q cells
      → Ends (Allocated s m h cells len) (carve sys m q len s)
  grant q page v z =
      let enabled = s.shared.is_mprotect_enabled in
      let n = round_length enabled s.shared.page_size len in
      let all : span cells ≡ span z.before + span (z.found ∷ z.behind) =
        ap span z.cells ∙ span-append z.before (z.found ∷ z.behind) in
      let room : len ≤ z.found.size = ground (arith, z.fit) in
      let rounded : (len ≤ n) × (n ≤ len + 4095) =
        subst
          (λ (ps : ℕ).
            (len ≤ round_length enabled ps len) × (round_length enabled ps len ≤ len + 4095))
          (sym page)
          (round_length-bounds enabled len
            (omega (arith, all, room, v.filled, v.within, v.bound))) in
      let part =
        (Chain-split s.blocks m null z.found z.behind null (m + sizeof_mmap_header) q z.before
          z.place (rw z.cells at v.chain)).1 in
      Ends.weaken
        (carve-Carved s m h (last null (m + sizeof_mmap_header) z.before) q z.found z.behind sys len
          part (v.mapped m (omega arith) (omega (arith, v.filled, all))) v.here
          (λ a x y. v.mapped a (omega (arith, z.place)) (omega (arith, z.place, v.filled, all)))
          (omega (arith, all, v.filled, v.within, v.bound))
          (omega (arith, all, room, rounded, v.filled, v.within, v.bound)))
        λ a t (e, k). record {
          place = q;
          found = z;
          address = e;
          valid = Carved-IsMmap n v z k;
          shared = k.after.shared;
          mapped = k.after.mapped;
          bytes = k.after.bytes;
          mmaps = k.after.mmaps;
          outside = λ x o.
              ap_at k.after.blocks x
              ∙ k.outside x (elim o [
                | inl b ↦ inl (omega (arith, z.place))
                | inr b ↦ inr (omega (arith, z.place, v.filled, all))
              ]);
        }

pub Allocated-then :
    {s t u : State} {m : Ptr} {h : MmapHeader} {cells : List Cell} {len a : ℕ}
    → Allocated s m h cells len a t
    → Same t u
    → Allocated s m h cells len a u
Allocated-then k same = record {
  place = k.place;
  found = k.found;
  address = k.address;
  valid = IsMmap-Same same k.valid;
  shared = same.shared ∙ k.shared;
  mapped = same.mapped ∙ k.mapped;
  bytes = same.bytes ∙ k.bytes;
  mmaps = same.mmaps ∙ k.mmaps;
  outside = λ x o. ap_at same.blocks x ∙ k.outside x o;
}

module _ (sys : System) (locks : Locks sys) {s : State} {m : Ptr} {h : MmapHeader}
    {cells : List Cell} (len : ℕ) where
  -- What follows a successful search.
  cut :
      {t : State} {q : Ptr}
      → s.shared.page_size ≡ 4096
      → IsMmap s m h cells
      → Same s t
      → FirstFit len (m + sizeof_mmap_header) q cells
      → Ends (Granted s m h cells len) (
          (do
            sound ← check_mmap_block "vgc_malloc" m
            if not sound
                then (do
                  unlock_mmap sys m
                  report "checkMmapBlock" "Error"
                      "The MMAP for vgc_malloc is unstable while allocating memory"
                  pure null)
                else do memory ← carve sys m q len; unlock_mmap sys m; pure memory)
            t)
  cut {t} {q} page v same z =
      Ends.seq _ (check_mmap_block-Same "vgc_malloc" cells (IsMmap-Same same v)) λ b t' (e, same').
        let st = After-Same same same' in
        rw e (
          Ends.seq _ (grant sys len q (ap (λ x. x.page_size) st.shared ∙ page) (IsMmap-Same st v) z)
            λ a u k.
              Ends.seq _ (unlock_or_report-Same sys (mmap_mutex m) _ u)
                λ _ w same''. ends (inr (Allocated-then (Allocated-Same st k) same'')))

  -- allocMallocBlock on a well-formed MMAP block, with every lock granted and pages of 4096 bytes,
  -- whatever the other calls answer: it ends without a fault, and either no cell fits and no header
  -- changes, or it gives out the first cell that fits and leaves a well-formed MMAP block.
  pub alloc_malloc_block-Granted :
      s.shared.page_size ≡ 4096
      → IsMmap s m h cells
      → Ends (Granted s m h cells len) (alloc_malloc_block sys m len s)
  unfolding alloc_malloc_block
  alloc_malloc_block-Granted page v =
      Ends.seq _ (mutex_lock-Same sys locks (mmap_mutex m) s) λ a t (e, same).
        let v' = IsMmap-Same same v in
        rw (e, search sys len v')
          (elim (locate-FirstFit len (m + sizeof_mmap_header) cells) [
            | inl (none_, nofit) ↦ rw (eqb_true none_) (
                Ends.seq _ (unlock_or_report-Same sys (mmap_mutex m) _ t)
                  λ _ u same'. ends (inl (refl, nofit, After-Same same same')))
            | inr z ↦
                rw
                  (eqb_false {a = locate len (m + sizeof_mmap_header) cells} {b = 0}
                    (omega (arith, z.place)))
                  (cut page v same z)
          ])
