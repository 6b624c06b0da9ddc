-- ===== src/Malloc/Faults.antt =====
-- What vgc_malloc does after mmap has failed, and what vgc_free does once the first MMAP block is
-- unmapped.
use vgc_malloc.Base.{
  ℕ, ◌+◌, ◌/◌, ◌-◌, ◌==◌, not, sym, ◌≡◌, ◌≢◌, refl, ◌<◌, ◌≤◌, ◌⊎◌, true, false, none, some, arith,
  inl, inr, ◌∙◌, ap, ap_at, eqb_true, eqb_false, Bool-cases, if◌then◌else◌,
}
use vgc_malloc.Memory.{
  Ptr, null, map_failed, MmapHeader, State, Run, M, and_then, ok, fault, load_mmap, shared_mutex,
  ◌>>=◌, ◌>>◌, update_range,
}
use vgc_malloc.Memory.Ends
use vgc_malloc.Memory.Ends.{Ends, ends, Same, After-Same, load_mmap-ok}
use vgc_malloc.System.{System, mmap, munmap}
use vgc_malloc.System.Laws.{Locks, mutex_lock-Same, when-report-Same}
use vgc_malloc.Malloc.Locks.{unlock_or_report-Same}
use vgc_malloc.Malloc.Check.{is_in_mmap_block, in_mmap_loop}
use vgc_malloc.Malloc.Region.{alloc_mmap, mmap_block_allocate, free_mmap}
use vgc_malloc.Malloc.Release.{vgc_free}
use vgc_malloc.Malloc.Api.{malloc_sized, malloc}

-- A run that ends, followed by a fault.
then_fault :
    {A B : Type 0} {P : A → State → Type 0} {r : Run A} (k : A → M B)
    → Ends P r
    → ((a : A) (t : State) → P a t → k a t ≡ fault)
    → and_then r k ≡ fault
then_fault k (ends p) next = next _ _ p

load_mmap-fault : (p : Ptr) (s : State) → s.mapped p ≡ false → load_mmap p s ≡ fault
unfolding load_mmap
load_mmap-fault p s e = ground arith

module _ (sys : System) (failing : (n len : ℕ) → sys.mmap n len ≡ none) where
  -- A state where nothing but messages and the number of calls may differ.
  alloc_mmap-failed :
      (size last : ℕ) (s : State)
      → Ends (λ a t. (a ≡ map_failed) × Same s t) (alloc_mmap sys size last s)
  unfolding alloc_mmap mmap
  alloc_mmap-failed size last s =
      rw (mmap, failing s.calls size)
        (ends (
          refl,
          record { shared = refl; mapped = refl; bytes = refl; mmaps = refl; blocks = refl },
        ))

  pub mmap_block_allocate-failed :
      (size last : ℕ) (s : State)
      → Ends (λ a t. (a ≡ map_failed) × Same s t) (mmap_block_allocate sys size last s)
  unfolding mmap_block_allocate
  mmap_block_allocate-failed size last s =
      Ends.seq _ (alloc_mmap-failed size last s) λ a t (e, same). rw (eqb_true e) (
        Ends.seq _ (alloc_mmap-failed (size / 10) last t) λ b u (e', same'). rw e' (
          ends (
            refl,
            After-Same same (
                After-Same same' (record {
                  shared = refl;
                  mapped = refl;
                  bytes = refl;
                  mmaps = refl;
                  blocks = refl;
                })),
          )))

  -- Where mmap fails, vgc_malloc on an empty heap returns null and leaves MAP_FAILED as the first
  -- MMAP block.
  malloc-failed :
      (size : ℕ) (s : State)
      → s.shared.mmap_block_first ≡ null
      → Ends
          (λ a t. (a ≡ null) × (t.shared.mmap_block_first ≡ map_failed) × (t.mapped ≡ s.mapped))
          (malloc sys size s)
  unfolding malloc
  malloc-failed size s empty = rw (eqb_true empty) (
      Ends.seq _ (mmap_block_allocate-failed s.shared.mmap_block_size null s)
        λ a t (e, same). rw e (ends (refl, refl, same.mapped)))

  malloc-fault :
      (size : ℕ) (s : State)
      → s.shared.mmap_block_first ≡ map_failed
      → s.mapped s.shared.mmap_block_first ≡ false
      → 0 < size
      → malloc sys size s ≡ fault
  unfolding malloc malloc_sized
  malloc-fault size s first unmapped pos =
      rw
        (
          eqb_false {a = s.shared.mmap_block_first} {b = 0} (omega (arith, first)),
          eqb_false {a = size} {b = 0} (omega arith),
          load_mmap-fault s.shared.mmap_block_first s unmapped,
        )
        refl

  -- Where every mmap fails, the second call of vgc_malloc on an empty heap, for a positive size, is a
  -- fault: the first has left MAP_FAILED as the first MMAP block, and its header is read, where that
  -- address is not mapped.
  pub malloc_twice-fault :
      (size size' : ℕ) (s : State)
      → s.shared.mmap_block_first ≡ null
      → s.mapped map_failed ≡ false
      → 0 < size'
      → ◌≡◌ {A = Run Ptr} ((do _ ← malloc sys size; malloc sys size') s) fault
  malloc_twice-fault size size' s empty unmapped pos =
      then_fault (λ _. malloc sys size') (malloc-failed size s empty)
        λ a t (_, first, same).
          malloc-fault size' t first (ap t.mapped first ∙ ap_at same map_failed ∙ unmapped) pos

-- Without a first MMAP block, no pointer lies in one.
is_in_mmap_block-empty :
    (ptr : Ptr) (s : State) → s.shared.mmap_block_first ≡ null → is_in_mmap_block ptr s ≡ ok false s
unfolding is_in_mmap_block in_mmap_loop
is_in_mmap_block-empty ptr s empty = rw (eqb_true empty) refl

pub update_range-off :
    {A : Type 0} (f : Ptr → A) (p n : ℕ) (a : A) (x : Ptr)
    → (x < p) ⊎ (p + n ≤ x)
    → update_range f p n a x ≡ f x
update_range-off f p n a x o = ground arith

-- munmap keeps what is outside its range.
pub munmap-outside :
    (sys : System) (p n : ℕ) (s : State)
    → Ends
        (λ _ t.
          (t.shared ≡ s.shared)
          × ((x : Ptr)
              → (x < p) ⊎ (p + n ≤ x)
              → (t.blocks x ≡ s.blocks x) × (t.mmaps x ≡ s.mmaps x) × (t.mapped x ≡ s.mapped x)))
        (munmap sys p n s)
unfolding munmap
munmap-outside sys p n s = elim (Bool-cases (sys.munmap s.calls p n)) [
  | inl e ↦ rw e (
      ends (
        refl,
        λ x o. (
          update_range-off s.blocks p n none x o,
          update_range-off s.mmaps p n none x o,
          update_range-off s.mapped p n false x o,
        ),
      ))
  | inr e ↦ rw e (ends (refl, λ x o. (refl, refl, refl)))
]

free_mmap-first :
    (sys : System) (m : Ptr) (s : State) {h : MmapHeader}
    → s.shared.mmap_block_first ≡ m
    → s.mapped m ≡ true
    → s.mmaps m ≡ some h
    → Ends
        (λ _ t.
          (t.shared.mmap_block_first ≡ null)
          × ((x : Ptr)
              → (x < m) ⊎ (m + h.size ≤ x)
              → (t.blocks x ≡ s.blocks x) × (t.mmaps x ≡ s.mmaps x)))
        (free_mmap sys m s)
unfolding free_mmap
free_mmap-first sys m s {h} first here head =
    let u : State = record s {
      shared = record s.shared {
        mmap_block_count = s.shared.mmap_block_count - 1;
        mmap_block_first =
            if m == s.shared.mmap_block_first then null else s.shared.mmap_block_first;
      };
    } in
    let none_ : u.shared.mmap_block_first ≡ null =
      ap (λ b. if b then null else s.shared.mmap_block_first) (eqb_true (sym first)) in
    rw (load_mmap-ok m u here head) (
      Ends.seq _ (munmap-outside sys m h.size u) λ done t (shared, keep).
        Ends.weaken (when-report-Same (not done) "munmap" "Error" "unmapping MMAP" t) λ _ w same. (
          ap (λ x. x.mmap_block_first) (same.shared ∙ shared) ∙ none_,
          λ x o. (ap_at same.blocks x ∙ (keep x o).0, ap_at same.mmaps x ∙ (keep x o).1),
        ))

module _ (sys : System) (locks : Locks sys) where
  vgc_free-refused :
      (ptr : Ptr) (s : State)
      → ptr ≢ null
      → s.shared.mmap_block_first ≡ null
      → Ends (λ _ t. Same s t) (vgc_free sys ptr s)
  unfolding vgc_free
  vgc_free-refused ptr s some_ empty = rw (eqb_false some_) (
      Ends.seq _ (mutex_lock-Same sys locks shared_mutex s) λ a t (e, same).
        rw (e, is_in_mmap_block-empty ptr t (ap (λ x. x.mmap_block_first) same.shared ∙ empty))
          (Ends.seq _ (unlock_or_report-Same sys shared_mutex _ t) λ _ u same'. ends (
            After-Same same (
              After-Same same' (record {
                shared = refl;
                mapped = refl;
                bytes = refl;
                mmaps = refl;
                blocks = refl;
              })))))

  -- Once freeMMAP has unmapped the first MMAP block, vgc_free refuses every pointer: with every lock
  -- granted it ends without a fault and changes no header outside the block that was unmapped, also
  -- where the pointer is of another MMAP block.
  pub free_mmap-refused :
      (m ptr : Ptr) (s : State) {h : MmapHeader}
      → s.shared.mmap_block_first ≡ m
      → s.mapped m ≡ true
      → s.mmaps m ≡ some h
      → ptr ≢ null
      → Ends
          (λ _ t.
            (t.shared.mmap_block_first ≡ null)
            × ((x : Ptr)
                → (x < m) ⊎ (m + h.size ≤ x)
                → (t.blocks x ≡ s.blocks x) × (t.mmaps x ≡ s.mmaps x)))
          ((do free_mmap sys m; vgc_free sys ptr) s)
  free_mmap-refused m ptr s first here head some_ =
      Ends.seq _ (free_mmap-first sys m s first here head) λ _ t (none_, keep).
        Ends.weaken (vgc_free-refused ptr t some_ none_) λ _ u same. (
          ap (λ x. x.mmap_block_first) same.shared ∙ none_,
          λ x o. (ap_at same.blocks x ∙ (keep x o).0, ap_at same.mmaps x ∙ (keep x o).1),
        )
