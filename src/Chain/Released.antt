-- ===== src/Chain/Released.antt =====
-- What vgc_free does after the block is found, on a well-formed MMAP block that stays in use.
use vgc_malloc.Base.{
  ◌+◌, ◌≡◌, ◌≢◌, refl, ◌<◌, ◌≤◌, ◌⊎◌, true, false, some, List, [], ◌∷◌, ◌++◌, arith, inl, inr, ◌∙◌,
  ap_at, length, eqb_false, sub64,
}
use vgc_malloc.Memory.{
  Ptr, null, MmapHeader, MallocHeader, State, update, is_free, sizeof_mmap_header, shared_mutex,
  mmap_mutex,
}
use vgc_malloc.Memory.Ends
use vgc_malloc.Memory.Ends.{
  Ends, ends, After, After-Same, Same, load_block-ok, load_mmap-ok, store_mmap-ok,
}
use vgc_malloc.System.{System}
use vgc_malloc.Malloc.Locks.{unlock_or_report-Same}
use vgc_malloc.Malloc.Release.{unlock_both, release_mmap, release_if_free, free_locked}
use vgc_malloc.Chain.{Cell, Blocks, header, end_of, span, Chain}
use vgc_malloc.Chain.Patch.{update_at}
use vgc_malloc.Chain.Mmap.{IsMmap, IsLaid, busy_cells-le}
use vgc_malloc.Chain.FirstFit.{IsMmap-Same}
use vgc_malloc.Chain.Check.{check_laid-Same}
use vgc_malloc.Chain.Coalesce.{release_cell}
use vgc_malloc.Chain.Join.{Rewritten}
use vgc_malloc.Chain.Free.{coalesce-Rewritten, Chain-in}
use vgc_malloc.Chain.RoundTrip.{release_cell-span, release_cell-busy}

abbrev pub one_less : MmapHeader → MmapHeader
one_less h = record h { elements = sub64 h.elements 1 }

-- What vgc_free has done to the MMAP block at `m`: the cell `c` is freed and joined with its
-- neighbours, the block is well-formed with one element less, and nothing outside has changed.
pub record Released (s : State) (m : Ptr) (h : MmapHeader) (xs : List Cell) (c : Cell)
    (ys : List Cell) (t : State) : Type 0 where
  pub valid : IsMmap t m (one_less h) (release_cell xs c ys)
  pub shared : t.shared ≡ s.shared
  pub mapped : t.mapped ≡ s.mapped
  pub bytes : t.bytes ≡ s.bytes
  pub mmaps : t.mmaps ≡ update s.mmaps m (some (one_less h))
  pub outside :
      (x : Ptr) → (x < m + sizeof_mmap_header) ⊎ (m + h.size ≤ x) → t.blocks x ≡ s.blocks x

module _ (sys : System) where
  pub unlock_both-Same : (m : Ptr) (s : State) → Ends (λ _ t. Same s t) (unlock_both sys m s)
  unfolding unlock_both
  unlock_both-Same m s =
      Ends.seq {Q = λ _ t. Same s t} _ (unlock_or_report-Same sys (mmap_mutex m) _ s) λ _ t same.
        Ends.weaken (unlock_or_report-Same sys shared_mutex _ t) λ _ u same'. After-Same same same'

-- The first block of a chain of two or more has a link.
pub first_linked :
    (f : Blocks) (m p : Ptr) (cs : List Cell)
    → Chain f m null p cs null
    → 1 < length cs
    → (b : MallocHeader) × (f p ≡ some b) × (b.next ≢ null)
first_linked f m p [] ch n = absurd (omega arith)
first_linked f m p (c ∷ []) ch n = absurd (omega arith)
first_linked f m p (c ∷ d ∷ cs) (h, hs) n = (header m null (end_of p c) c, h, omega arith)

pub Released-Same :
    {s t u : State} {m : Ptr} {h : MmapHeader} {xs : List Cell} {c : Cell} {ys : List Cell}
    → Released s m h xs c ys t
    → Same t u
    → Released s m h xs c ys u
Released-Same k same = record {
  valid = IsMmap-Same same k.valid;
  shared = same.shared ∙ k.shared;
  mapped = same.mapped ∙ k.mapped;
  bytes = same.bytes ∙ k.bytes;
  mmaps = same.mmaps ∙ k.mmaps;
  outside = λ x o. ap_at same.blocks x ∙ k.outside x o;
}

module _ {s : State} {m : Ptr} {h : MmapHeader} (xs : List Cell) (c : Cell) (ys : List Cell) where
  -- The rewritten chain, with the counter lowered, is well-formed.
  Rewritten-Released :
      {t u : State}
      → IsMmap s m h (xs ++ c ∷ ys)
      → is_free c.status ≡ false
      → 0 < length (release_cell xs c ys)
      → After s (update s.mmaps m (some (one_less h))) s.blocks t
      → Rewritten t m null
          (m + sizeof_mmap_header)
          (m + sizeof_mmap_header + span (xs ++ c ∷ ys))
          (release_cell xs c ys)
          u
      → Released s m h xs c ys u
  Rewritten-Released v used some_ a r = record {
    valid = record {
      base = v.base;
      here = ap_at (r.after.mmaps ∙ a.mmaps) m ∙ update_at s.mmaps m _ refl;
      chain = Chain-in r;
      nonempty = some_;
      filled = omega (arith, v.filled, release_cell-span xs c ys);
      max = v.max;
      within = rw (r.after.shared, a.shared) v.within;
      bound = rw (r.after.shared, a.shared) v.bound;
      mapped = λ q lo hi. ap_at (r.after.mapped ∙ a.mapped) q ∙ v.mapped q lo hi;
      elements = omega (
        arith,
        v.elements,
        v.filled,
        v.bound,
        v.within,
        release_cell-busy xs c ys used,
        busy_cells-le (xs ++ c ∷ ys),
      );
      check_start = v.check_start;
      check_end = v.check_end;
    };
    shared = r.after.shared ∙ a.shared;
    mapped = r.after.mapped ∙ a.mapped;
    bytes = r.after.bytes ∙ a.bytes;
    mmaps = r.after.mmaps ∙ a.mmaps;
    outside = λ x o.
        ap_at r.after.blocks x
        ∙ (r.outside x (elim o [ inl l ↦ inl l | inr l ↦ inr (omega (arith, v.filled)) ])
            ∙ ap_at a.blocks x);
  }

-- What follows the joining: both mutexes are given up where blocks are left, and else the MMAP block is
-- released.
module _ (sys : System) (m : Ptr) (cs : List Cell) (u : State) where
  pub release_if_free-Same :
      Chain u.blocks m null (m + sizeof_mmap_header) cs null
      → u.mapped (m + sizeof_mmap_header) ≡ true
      → 1 < length cs
      → Ends (λ _ t. Same u t) (release_if_free sys m u)
  unfolding release_if_free
  release_if_free-Same ch here two =
      let (b, first, link) = first_linked u.blocks m (m + sizeof_mmap_header) cs ch two in
      rw (load_block-ok (m + sizeof_mmap_header) u here first, eqb_false link)
        (unlock_both-Same sys m u)

  pub release_if_free-alone :
      (c : Cell)
      → u.blocks (m + sizeof_mmap_header) ≡ some (header m null null c)
      → u.mapped (m + sizeof_mmap_header) ≡ true
      → release_if_free sys m u ≡ release_mmap sys m u
  unfolding release_if_free
  release_if_free-alone c first here = rw (load_block-ok (m + sizeof_mmap_header) u here first) refl

module _ (sys : System) (m : Ptr) (h : MmapHeader) (xs : List Cell) (c : Cell) (ys : List Cell)
    {Q : Unit {0} → State → Type 0} where
  -- With both mutexes held, and the counter already lowered.
  pub free_locked_lem :
      (s t : State)
      → IsMmap s m h (xs ++ c ∷ ys)
      → is_free c.status ≡ false
      → 0 < length (release_cell xs c ys)
      → After s (update s.mmaps m (some (one_less h))) s.blocks t
      → ((u : State) → Released s m h xs c ys u → Ends Q (release_if_free sys m u))
      → Ends Q (free_locked sys m (m + sizeof_mmap_header + span xs) t)
  unfolding free_locked
  free_locked_lem s t v used some_ a next =
      let laid : IsLaid t m (one_less h) (xs ++ c ∷ ys) = record {
        base = v.base;
        here = ap_at a.mmaps m ∙ update_at s.mmaps m _ refl;
        chain = rw a.blocks v.chain;
        nonempty = v.nonempty;
        filled = v.filled;
        max = v.max;
        within = rw a.shared v.within;
        mapped = λ q lo hi. ap_at a.mapped q ∙ v.mapped q lo hi;
      } in
      Ends.seq _ (check_laid-Same "vgc_free" (xs ++ c ∷ ys) laid) λ b t' (e, same).
        let a' = After-Same a same in
        rw e (
          Ends.seq _
            (coalesce-Rewritten sys m (m + sizeof_mmap_header) t' xs c ys
              (m + sizeof_mmap_header + span xs) refl (rw a'.blocks v.chain) (omega arith)
              (λ x lo hi. ap_at a'.mapped x ∙ v.mapped x (omega arith) (omega (arith, v.filled)))
              (omega (arith, v.filled, v.within, v.bound)))
            λ _ u r. next u (Rewritten-Released xs c ys v used some_ a' r))
