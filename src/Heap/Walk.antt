-- ===== src/Heap/Walk.antt =====
-- The loop of vgc_malloc over the MMAP blocks.
use vgc_malloc.Base.{
  ℕ, zero, suc, ◌≡◌, refl, ◌<◌, ◌⊎◌, inl, inr, ◌∙◌, ap, ap_at, List, [], ◌∷◌, ◌++◌, arith, length,
  eqb_true, eqb_false,
}
use vgc_malloc.Memory.{Ptr, null, State}
use vgc_malloc.Memory.Ends
use vgc_malloc.Memory.Ends.{Ends, ends, After-Same, Same, Same-refl, load_mmap-ok}
use vgc_malloc.System.{System}
use vgc_malloc.System.Laws.{Locks}
use vgc_malloc.Malloc.Api.{malloc_loop}
use vgc_malloc.Chain.Search.{NoneFits}
use vgc_malloc.Chain.FirstFit.{Allocated}
use vgc_malloc.Chain.Grant.{Allocated-Same, alloc_malloc_block-Granted}
use vgc_malloc.Heap.{Region, first_of, last_of, Regions, NoRoom}
use vgc_malloc.Heap.Frame.{Regions-Same}

-- The first block with room has given out `a`, and those before it have none.
pub record Served (s : State) (rs : List Region) (n : ℕ) (a : Ptr) (t : State) : Type 0 where
  pub before : List Region
  pub found : Region
  pub behind : List Region
  pub list : rs ≡ before ++ found ∷ behind
  pub full : NoRoom n before
  pub given : Allocated s found.at found.head found.cells n a t

abbrev pub Walked : State → List Region → ℕ → Ptr → Ptr × Ptr → State → Type 0
Walked s rs n last (a, l) t =
    ((a ≡ null) × (l ≡ last_of last rs) × NoRoom n rs × Same s t) ⊎ Served s rs n a t

Served-later :
    {s u t : State} {r : Region} {rs : List Region} {n : ℕ} {a : Ptr}
    → NoneFits n r.cells
    → Same s u
    → Served u rs n a t
    → Served s (r ∷ rs) n a t
Served-later {r} nofit same k = record {
  before = r ∷ k.before;
  found = k.found;
  behind = k.behind;
  list = ap (λ xs. r ∷ xs) k.list;
  full = (nofit, k.full);
  given = Allocated-Same same k.given;
}

module _ (sys : System) (locks : Locks sys) (n : ℕ) where
  pub malloc_loop-Walked :
      (k : ℕ) (prev last : Ptr) (s : State) (rs : List Region)
      → s.shared.page_size ≡ 4096
      → Regions s prev rs
      → length rs < k
      → Ends (Walked s rs n last) (malloc_loop sys k last (first_of rs) n s)
  unfolding malloc_loop
  malloc_loop-Walked zero prev last s rs page v fuel = absurd (omega arith)
  malloc_loop-Walked (suc k) prev last s [] page v fuel = ends (inl (refl, refl, tt, Same-refl s))
  malloc_loop-Walked (suc k) prev last s (r ∷ rs) page (v, p, next, o, vs) fuel =
      rw (eqb_false {a = r.at} {b = 0} (omega (arith, v.base))) (
        Ends.seq _ (alloc_malloc_block-Granted sys locks n page v) λ a t g. elim g [
          | inl (e, nofit, same) ↦
              rw
                (
                  eqb_true e,
                  load_mmap-ok r.at t
                      (ap_at same.mapped r.at
                        ∙ v.mapped r.at (omega arith) (omega (arith, v.filled)))
                      (ap_at same.mmaps r.at ∙ v.here),
                  next,
                )
                (Ends.weaken
                  (malloc_loop-Walked k r.at r.at t rs (ap (λ x. x.page_size) same.shared ∙ page)
                    (Regions-Same s t r.at rs same vs) (omega arith))
                  λ b u w. elim w [
                    | inl (z, l, full, same') ↦ inl (z, l, (nofit, full), After-Same same same')
                    | inr d ↦ inr (Served-later nofit same d)
                  ])
          | inr d ↦ rw (eqb_false {a = a} {b = 0} (omega (arith, d.address))) (
              ends (
                inr (record {
                  before = [];
                  found = r;
                  behind = rs;
                  list = refl;
                  full = tt;
                  given = d;
                })))
        ])
