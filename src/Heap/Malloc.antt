-- ===== src/Heap/Malloc.antt =====
-- vgc_malloc as a whole on the list of MMAP blocks.
use vgc_malloc.Base.{
  ℕ, suc, ◌+◌, ◌≡◌, refl, ◌<◌, ◌≤◌, ◌⊎◌, inl, inr, ◌∙◌, sym, ap, some, List, [], ◌∷◌, ◌++◌, arith,
  word_mod, eqb_true, eqb_false, leb-false,
}
use mathlib.Core.Path.{subst}
use vgc_malloc.Memory.{
  Ptr, null, map_failed, State, shared_mutex, sizeof_malloc_header, sizeof_mmap_header,
}
use vgc_malloc.Memory.Ends
use vgc_malloc.Memory.Ends.{Ends, ends, Same, load_mmap-ok}
use vgc_malloc.System.{System}
use vgc_malloc.System.Laws.{Answers, mutex_lock-Same}
use vgc_malloc.Malloc.Locks.{unlock_or_report-Same}
use vgc_malloc.Malloc.Block.{alloc_malloc_block}
use vgc_malloc.Malloc.Api.{align_size, malloc_loop, malloc_locked, malloc_sized, malloc}
use vgc_malloc.Chain.Mmap.{IsMmap}
use vgc_malloc.Chain.Fresh.{fresh_after, fresh_cells, one_block_more}
use vgc_malloc.Chain.Grant.{Allocated-then, Allocated-Same, alloc_malloc_block-Granted}
use vgc_malloc.Heap.{Region, region, last_of, AllAway, NoRoom, IsHeap}
use vgc_malloc.Heap.Frame.{Regions-Same, Regions-found}
use vgc_malloc.Heap.Walk.{Served, Walked, malloc_loop-Walked}
use vgc_malloc.Heap.Serve.{Served-IsHeap, serve}
use vgc_malloc.Heap.Link.{linked}
use vgc_malloc.Heap.Grow.{grown, mmap_block_allocate-IsHeap}

pub IsHeap-Same : {s t : State} {rs : List Region} → Same s t → IsHeap s rs → IsHeap t rs
IsHeap-Same {s} {t} {rs} same v = record {
  regions = Regions-Same s t null rs same v.regions;
  first = ap (λ x. x.mmap_block_first) same.shared ∙ v.first;
  count = ap (λ x. x.mmap_block_count) same.shared ∙ v.count;
}

pub Served-then :
    {s t u : State} {rs : List Region} {n : ℕ} {a : Ptr}
    → Served s rs n a t
    → Same t u
    → Served s rs n a u
Served-then k same = record {
  before = k.before;
  found = k.found;
  behind = k.behind;
  list = k.list;
  full = k.full;
  given = Allocated-then k.given same;
}

pub Same-Served :
    {s t u : State} {rs : List Region} {n : ℕ} {a : Ptr}
    → Same s t
    → Served t rs n a u
    → Served s rs n a u
Same-Served same k = record {
  before = k.before;
  found = k.found;
  behind = k.behind;
  list = k.list;
  full = k.full;
  given = Allocated-Same same k.given;
}

-- What vgc_malloc has done on the blocks `r ∷ rs` with `p` for a new block: the first block with room
-- has served, or no block has room and the new one, behind the others, has served.
abbrev pub Gave : State → Ptr → Region → List Region → ℕ → Ptr → State → Type 0
Gave s p r rs n a t =
    Served s (r ∷ rs) n a t
    ⊎ (NoRoom n (r ∷ rs)
        × ((u : State) × (u.shared ≡ one_block_more s.shared)
            × IsHeap u (grown p s.shared.mmap_block_size r rs)
            × Served u (grown p s.shared.mmap_block_size r rs) n a t))

NoRoom-linked :
    (n : ℕ) (p : Ptr) (r : Region) (rs : List Region) → NoRoom n (r ∷ rs) → NoRoom n (linked p r rs)
NoRoom-linked n p r [] (f, fs) = (f, tt)
NoRoom-linked n p r (q ∷ rs) (f, fs) = (f, NoRoom-linked n p q rs fs)

module _ (sys : System) (good : Answers sys) (p : Ptr) (n : ℕ) (s : State) (r : Region)
    (rs : List Region) where
  -- The new block serves.
  serve_new :
      (t u : State)
      → s.shared.page_size ≡ 4096
      → n + sizeof_mmap_header + sizeof_malloc_header ≤ s.shared.mmap_block_size
      → NoRoom n (r ∷ rs)
      → IsHeap u (grown p s.shared.mmap_block_size r rs)
      → u.shared ≡ one_block_more s.shared
      → Ends
          (λ a w. Served u (grown p s.shared.mmap_block_size r rs) n a w)
          (alloc_malloc_block sys p n u)
  serve_new t u page fit full v counted =
      let size = s.shared.mmap_block_size in
      let new = region p (fresh_after (last_of r.at rs) size) (fresh_cells size) in
      let w = Regions-found u null (linked p r rs) new [] v.regions in
      Ends.weaken
        (alloc_malloc_block-Granted sys good.locks n (ap (λ x. x.page_size) counted ∙ page) w)
        λ a x g. elim g [
          | inl (_, (nofit, _), _) ↦ absurd (ground (arith, nofit))
          | inr k ↦ record {
            before = linked p r rs;
            found = new;
            behind = [];
            list = refl;
            full = NoRoom-linked n p r rs full;
            given = k;
          }
        ]

  malloc_locked-Gave :
      s.shared.page_size ≡ 4096
      → IsHeap s (r ∷ rs)
      → ((c : ℕ) → sys.mmap c s.shared.mmap_block_size ≡ some p)
      → AllAway p s.shared.mmap_block_size (r ∷ rs)
      → 0 < p
      → p + s.shared.mmap_block_size < word_mod
      → n + sizeof_mmap_header + sizeof_malloc_header ≤ s.shared.mmap_block_size
      → Ends (Gave s p r rs n) (malloc_locked sys n s)
  unfolding malloc_locked
  malloc_locked-Gave page v got away pos bound fit =
      let walk =
        malloc_loop-Walked sys good.locks n (suc s.shared.mmap_block_count) null null s (r ∷ rs)
          page v.regions (omega (arith, v.count)) in
      Ends.seq _
        (subst
          (λ x.
            Ends (Walked s (r ∷ rs) n null)
              (malloc_loop sys (suc s.shared.mmap_block_count) null x n s))
          (sym v.first) walk)
        λ (a, l) t w. elim w [
          | inl (z, last, full, same) ↦
              let size = s.shared.mmap_block_size in
              let size' : t.shared.mmap_block_size ≡ size =
                ap (λ x. x.mmap_block_size) same.shared in
              rw (eqb_true z, last)
                (Ends.seq _
                  (mmap_block_allocate-IsHeap sys good p size t r rs (IsHeap-Same same v)
                    (got t.calls) away pos (omega arith) (omega (arith, size'))
                    (omega (arith, size', bound)))
                  λ next u (e, grew, counted).
                    let counted' = counted ∙ ap one_block_more same.shared in
                    rw (e, eqb_false {a = p} {b = map_failed} (omega arith))
                      (Ends.seq _ (serve_new t u page fit full grew counted') λ b w k.
                        Ends.seq _ (unlock_or_report-Same sys shared_mutex _ w)
                          λ _ x same'. ends (inr (full, (u, counted', grew, Served-then k same')))))
          | inr k ↦ rw (eqb_false {a = a} {b = 0} (omega (arith, k.given.address))) (
              Ends.seq _ (unlock_or_report-Same sys shared_mutex _ t)
                λ _ u same. ends (inl (Served-then k same)))
        ]

Same-Gave :
    {s t u : State} (p : Ptr) (r : Region) (rs : List Region) (n : ℕ) (a : Ptr)
    → Same s t
    → Gave t p r rs n a u
    → Gave s p r rs n a u
Same-Gave {u} p r rs n a same g =
    let size = ap (λ x. x.mmap_block_size) same.shared in
    elim g [
      | inl k ↦ inl (Same-Served same k)
      | inr (full, (x, counted, v, k)) ↦ inr (
        full,
        (
          x,
          counted ∙ ap one_block_more same.shared,
          subst (λ z. IsHeap x (grown p z r rs)) size v,
          subst (λ z. Served x (grown p z r rs) n a u) size k,
        ),
      )
    ]

module _ (sys : System) (good : Answers sys) (p : Ptr) (s : State) (r : Region) (rs : List Region)
    (size : ℕ) where
  abbrev aligned : ℕ
  aligned = align_size s.shared.is_mprotect_enabled size

  malloc_sized-Gave :
      s.shared.page_size ≡ 4096
      → IsHeap s (r ∷ rs)
      → ((c : ℕ) → sys.mmap c s.shared.mmap_block_size ≡ some p)
      → AllAway p s.shared.mmap_block_size (r ∷ rs)
      → 0 < p
      → p + s.shared.mmap_block_size < word_mod
      → 0 < size
      → aligned < r.head.max_size
      → Ends (Gave s p r rs aligned) (malloc_sized sys size s)
  unfolding malloc_sized
  malloc_sized-Gave page v got away pos bound some_ small =
      let w = v.regions.0 in
      let first : s.shared.mmap_block_first ≡ r.at = v.first in
      let w' = subst (λ x. IsMmap s x r.head r.cells) (sym first) w in
      rw
        (
          eqb_false {a = size} {b = 0} (omega arith),
          load_mmap-ok s.shared.mmap_block_first s
              (w'.mapped s.shared.mmap_block_first (omega arith) (omega (arith, w'.filled)))
              w'.here,
          leb-false {a = r.head.max_size} {b = aligned} small,
        )
        (Ends.seq _ (mutex_lock-Same sys good.locks shared_mutex s) λ a t (e, same).
          let size' : t.shared.mmap_block_size ≡ s.shared.mmap_block_size =
            ap (λ x. x.mmap_block_size) same.shared in
          rw e (
            Ends.weaken
              (malloc_locked-Gave sys good p aligned t r rs
                (ap (λ x. x.page_size) same.shared ∙ page) (IsHeap-Same same v)
                (λ c. ap (sys.mmap c) size' ∙ got c)
                (subst (λ x. AllAway p x (r ∷ rs)) (sym size') away) pos (omega (arith, size'))
                (omega (arith, size', small, w.max, w.within)))
              λ b u g. Same-Gave p r rs aligned b same g))

  -- vgc_malloc on a well-formed list of MMAP blocks, with pages of 4096 bytes, where mmap gives `p` for
  -- a new MMAP block that lies apart from the others and ends below 2 ^ 64, every call on a mutex
  -- succeeds, and the aligned size is positive and below the maximal size of the first block: it ends
  -- without a fault. The first block of the list with room gives out its first cell that fits; or no
  -- block has room, a new one is linked behind the last, and that one gives out its cell. Either way
  -- the list of MMAP blocks is well-formed afterwards.
  pub malloc-Gave :
      s.shared.page_size ≡ 4096
      → IsHeap s (r ∷ rs)
      → ((c : ℕ) → sys.mmap c s.shared.mmap_block_size ≡ some p)
      → AllAway p s.shared.mmap_block_size (r ∷ rs)
      → 0 < p
      → p + s.shared.mmap_block_size < word_mod
      → 0 < size
      → aligned < r.head.max_size
      → Ends
          (λ a t. Gave s p r rs aligned a t × ((qs : List Region) × IsHeap t qs))
          (malloc sys size s)
  unfolding malloc
  malloc-Gave page v got away pos bound some_ small =
      let w = v.regions.0 in
      rw (eqb_false {a = s.shared.mmap_block_first} {b = 0} (omega (arith, v.first, w.base))) (
        Ends.weaken (malloc_sized-Gave page v got away pos bound some_ small) λ a t g. (
          g,
          elim g [
            | inl k ↦ (k.before ++ serve s aligned k.found ∷ k.behind, Served-IsHeap v k)
            | inr (full, (u, counted, h, k)) ↦
                (k.before ++ serve u aligned k.found ∷ k.behind, Served-IsHeap h k)
          ],
        ))
