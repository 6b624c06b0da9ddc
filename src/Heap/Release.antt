-- ===== src/Heap/Release.antt =====
-- What vgc_free does when an MMAP block is free as a whole: it is unlinked and unmapped.
use vgc_malloc.Base.{
  ℕ, ◌+◌, ◌-◌, ◌≡◌, ◌≢◌, refl, ◌<◌, ◌≤◌, ◌⊎◌, inl, inr, ◌∙◌, sym, ap, ap_at, some, none, true,
  false, arith, not, ◌==◌, Option, String, eqb_true, eqb_false, if◌then◌else◌,
}
use vgc_malloc.Memory.{
  Ptr, null, MmapHeader, State, Shared, mmap_mutex, shared_mutex, update, ◌>>=◌, ◌>>◌, pure,
  load_mmap, store_mmap,
}
use vgc_malloc.Memory.Ends
use vgc_malloc.Memory.Ends.{Ends, ends, Same, After, After-Same, load_mmap-ok, store_mmap-ok}
use vgc_malloc.System.{System, mutex_lock}
use vgc_malloc.Errno.{success}
use vgc_malloc.System.Laws.{
  Locks, mutex_lock-granted, mutex_destroy-Same, mutexattr_destroy-Same, when-report-Same,
}
use vgc_malloc.Malloc.Locks.{unlock_shared, unlock_or_report, unlock_or_report-Same}
use vgc_malloc.Malloc.Region.{free_mmap}
use vgc_malloc.Malloc.Faults.{munmap-outside}
use vgc_malloc.Malloc.Release.{unlink_next, unlink_prev, release_mmap}
use vgc_malloc.Chain.Patch.{update_at, update_off}
use vgc_malloc.Heap.Unlink.{Unlinked}

-- Between `s` and `t` only the header at `q` has changed, by `f`; none if `q` is null.
pub record Relinked (s t : State) (q : Ptr) (f : MmapHeader → MmapHeader) : Type 0 where
  pub shared : t.shared ≡ s.shared
  pub mapped : t.mapped ≡ s.mapped
  pub blocks : t.blocks ≡ s.blocks
  pub others : (x : Ptr) → (x ≢ q) ⊎ (q ≡ null) → t.mmaps x ≡ s.mmaps x
  pub there : (k : MmapHeader) → q ≢ null → s.mmaps q ≡ some k → t.mmaps q ≡ some (f k)

-- The neighbour at `q` of the block at `m`, if there is one.
abbrev pub Near : State → Ptr → ℕ → Ptr → Type 0
Near s m n q =
    (q ≡ null)
    ⊎ ((k : MmapHeader) × (q ≢ null)
        × (s.mapped q ≡ true)
        × (s.mmaps q ≡ some k)
        × ((q < m) ⊎ (m + n ≤ q)))

Same-Relinked :
    {s t : State} {q : Ptr} {f : MmapHeader → MmapHeader} → Same s t → q ≡ null → Relinked s t q f
Same-Relinked same z = record {
  shared = same.shared;
  mapped = same.mapped;
  blocks = same.blocks;
  others = λ x o. ap_at same.mmaps x;
  there = λ k n e. absurd (n z);
}

abbrev on_some : (MmapHeader → MmapHeader) → Option MmapHeader → Option MmapHeader
on_some f none = none
on_some f (some k) = some (f k)

After-Relinked :
    {s t : State} {q : Ptr} {k : MmapHeader} {f : MmapHeader → MmapHeader}
    → s.mmaps q ≡ some k
    → After s (update s.mmaps q (some (f k))) s.blocks t
    → q ≢ null
    → Relinked s t q f
After-Relinked {s} {q} {f} e a n = record {
  shared = a.shared;
  mapped = a.mapped;
  blocks = a.blocks;
  others =
      λ x o. ap_at a.mmaps x ∙ update_off s.mmaps q _ (elim o [ inl d ↦ d | inr z ↦ absurd (n z) ]);
  there = λ j _ e'. ap_at a.mmaps q ∙ update_at s.mmaps q _ refl ∙ ap (on_some f) (sym e ∙ e');
}

module _ (sys : System) where
  -- The header at `q` is changed and its lock given up.
  relink :
      (q : Ptr) (f : MmapHeader → MmapHeader) (status : String) (s : State) (k : MmapHeader)
      → ((n : ℕ) → sys.lock n (mmap_mutex q) ≡ success)
      → q ≢ null
      → s.mapped q ≡ true
      → s.mmaps q ≡ some k
      → Ends
          (λ a t. (a ≡ true) × Relinked s t q f)
          ((do
            locked ← mutex_lock sys (mmap_mutex q)
            if not locked then pure false else (do
              n ← load_mmap q
              store_mmap q (f n)
              unlock_or_report sys (mmap_mutex q) status
              pure true))
            s)
  relink q f status s k free_ some_ up e =
      Ends.seq _ (mutex_lock-granted sys (mmap_mutex q) s (free_ s.calls)) λ a t (granted, same).
        let up' = ap_at same.mapped q ∙ up in
        rw (granted, load_mmap-ok q t up' (ap_at same.mmaps q ∙ e), store_mmap-ok q t (f k) up')
          (Ends.seq _ (unlock_or_report-Same sys (mmap_mutex q) status _) λ _ u same'. ends (
            refl,
            After-Relinked e
                (record {
                  shared = same'.shared ∙ same.shared;
                  mapped = same'.mapped ∙ same.mapped;
                  bytes = same'.bytes ∙ same.bytes;
                  mmaps = same'.mmaps ∙ ap (λ g. update g q (some (f k))) same.mmaps;
                  blocks = same'.blocks ∙ same.blocks;
                })
                some_,
          ))

  module _ (m : Ptr) (h : MmapHeader) (s : State) where
    pub unlink_next-Relinked :
        ((n : ℕ) → sys.lock n (mmap_mutex h.next) ≡ success)
        → s.mapped m ≡ true
        → s.mmaps m ≡ some h
        → Near s m h.size h.next
        → Ends
            (λ a t. (a ≡ true) × Relinked s t h.next (λ k. record k { prev = h.prev }))
            (unlink_next sys m s)
    unfolding unlink_next
    unlink_next-Relinked free_ here head near = rw (load_mmap-ok m s here head) (elim near [
      | inl z ↦
          rw (eqb_true {a = h.next} {b = 0} z) (ends (refl, Same-Relinked (Ends.Same-refl s) z))
      | inr (k, n, up, e, _) ↦ rw (eqb_false {a = h.next} {b = 0} n) (
          relink h.next (λ k. record k { prev = h.prev }) "can't unlock mmapBlock->next mutex" s k
            free_ n up e)
    ])

    pub unlink_prev-Relinked :
        ((n : ℕ) → sys.lock n (mmap_mutex h.prev) ≡ success)
        → s.mapped m ≡ true
        → s.mmaps m ≡ some h
        → Near s m h.size h.prev
        → Ends
            (λ a t. (a ≡ true) × Relinked s t h.prev (λ k. record k { next = h.next }))
            (unlink_prev sys m s)
    unfolding unlink_prev
    unlink_prev-Relinked free_ here head near = rw (load_mmap-ok m s here head) (elim near [
      | inl z ↦
          rw (eqb_true {a = h.prev} {b = 0} z) (ends (refl, Same-Relinked (Ends.Same-refl s) z))
      | inr (k, n, up, e, _) ↦ rw (eqb_false {a = h.prev} {b = 0} n) (
          relink h.prev (λ k. record k { next = h.next }) "can't unlock mmapBlock->prev mutex" s k
            free_ n up e)
    ])

-- What freeMMAP makes of the shared record.
abbrev pub one_block_less : Ptr → Shared → Shared
one_block_less m sh = record sh {
  mmap_block_count = sh.mmap_block_count - 1;
  mmap_block_first = if m == sh.mmap_block_first then null else sh.mmap_block_first;
}

-- Nothing but what stands in the `n` bytes from `m` on, and the shared record, has changed.
abbrev Outside : State → State → Ptr → ℕ → Type 0
Outside s t m n =
    (x : Ptr)
    → (x < m) ⊎ (m + n ≤ x)
    → (t.blocks x ≡ s.blocks x) × (t.mmaps x ≡ s.mmaps x) × (t.mapped x ≡ s.mapped x)

free_mmap-Outside :
    (sys : System) (m : Ptr) (h : MmapHeader) (s : State)
    → s.mapped m ≡ true
    → s.mmaps m ≡ some h
    → Ends
        (λ _ t. (t.shared ≡ one_block_less m s.shared) × Outside s t m h.size)
        (free_mmap sys m s)
unfolding free_mmap
free_mmap-Outside sys m h s here head =
    let u : State = record s { shared = one_block_less m s.shared } in
    rw (load_mmap-ok m u here head) (
      Ends.seq _ (munmap-outside sys m h.size u) λ done t (shared, keep).
        Ends.weaken (when-report-Same (not done) "munmap" "Error" "unmapping MMAP" t) λ _ w same. (
          same.shared ∙ shared,
          λ x o. (
            ap_at same.blocks x ∙ (keep x o).0,
            ap_at same.mmaps x ∙ (keep x o).1,
            ap_at same.mapped x ∙ (keep x o).2,
          ),
        ))

-- Both neighbours are linked to each other.
record Patched (s t : State) (h : MmapHeader) : Type 0 where
  pub shared : t.shared ≡ s.shared
  pub mapped : t.mapped ≡ s.mapped
  pub blocks : t.blocks ≡ s.blocks
  pub others :
      (x : Ptr)
      → (x ≢ h.prev) ⊎ (h.prev ≡ null)
      → (x ≢ h.next) ⊎ (h.next ≡ null)
      → t.mmaps x ≡ s.mmaps x
  pub tail :
      (k : MmapHeader)
      → h.next ≢ null
      → s.mmaps h.next ≡ some k
      → t.mmaps h.next ≡ some (record k { prev = h.prev })
  pub lead :
      (k : MmapHeader)
      → h.prev ≢ null
      → s.mmaps h.prev ≡ some k
      → t.mmaps h.prev ≡ some (record k { next = h.next })

-- The two neighbours are not the same block.
abbrev pub Apart : MmapHeader → Type 0
Apart h = (h.prev ≢ h.next) ⊎ ((h.prev ≡ null) × (h.next ≡ null))

module _ (h : MmapHeader) {s t : State} where
  Relinked-Patched :
      {u : State}
      → Apart h
      → Relinked s t h.next (λ k. record k { prev = h.prev })
      → Relinked t u h.prev (λ k. record k { next = h.next })
      → Patched s u h
  Relinked-Patched apart a b = record {
    shared = b.shared ∙ a.shared;
    mapped = b.mapped ∙ a.mapped;
    blocks = b.blocks ∙ a.blocks;
    others = λ x p n. b.others x p ∙ a.others x n;
    tail = λ k some_ e.
        b.others h.next (elim apart [ inl d ↦ inl (omega arith) | inr (z, _) ↦ inr z ])
        ∙ a.there k some_ e;
    lead = λ k some_ e.
        b.there k some_ (a.others h.prev (elim apart [ inl d ↦ inl d | inr (_, z) ↦ inr z ]) ∙ e);
  }

  pub Near-Relinked :
      (m : Ptr) (n : ℕ)
      → Apart h
      → Near s m n h.prev
      → Relinked s t h.next (λ k. record k { prev = h.prev })
      → Near t m n h.prev
  Near-Relinked m n apart near a = elim near [
    | inl z ↦ inl z
    | inr (k, some_, up, e, off) ↦ inr (
      k,
      some_,
      ap_at a.mapped h.prev ∙ up,
      a.others h.prev (elim apart [ inl d ↦ inl d | inr (_, z) ↦ inr z ]) ∙ e,
      off,
    )
  ]

pub Near-off : (s : State) (m n q : ℕ) → Near s m n q → 0 < n → (m ≢ q) ⊎ (q ≡ null)
Near-off s m n q near pos = elim near [
  | inl z ↦ inr z
  | inr (_, _, _, _, off) ↦ inl (elim off [ inl a ↦ omega arith | inr b ↦ omega arith ])
]

Near-side : (s : State) (m n q : ℕ) → Near s m n q → q ≢ null → (q < m) ⊎ (m + n ≤ q)
Near-side s m n q near some_ = elim near [ inl z ↦ absurd (some_ z) | inr (_, _, _, _, off) ↦ off ]

module _ (sys : System) (locks : Locks sys) (m : Ptr) (h : MmapHeader) (s : State) where
  -- The last steps, once the neighbours are linked to each other.
  module _ (next_near : Near s m h.size h.next) (prev_near : Near s m h.size h.prev)
      (pos : 0 < h.size) where
    release-Patched :
        {u : State} (v : State)
        → s.mapped m ≡ true
        → s.mmaps m ≡ some h
        → Patched s u h
        → Same u v
        → Ends
            (λ _ t. Unlinked s t m h × (t.shared ≡ one_block_less m s.shared))
            ((do free_mmap sys m; unlock_shared sys) v)
    release-Patched {u} v here head p same =
        Ends.seq _
          (free_mmap-Outside sys m h v (ap_at same.mapped m ∙ ap_at p.mapped m ∙ here) (
            ap_at same.mmaps m
            ∙ p.others m (Near-off s m h.size h.prev prev_near pos)
                (Near-off s m h.size h.next next_near pos)
            ∙ head))
          λ _ w (counted, keep).
            Ends.weaken (unlock_or_report-Same sys shared_mutex _ w) λ _ x last.
              let shared = last.shared ∙ counted ∙ ap (one_block_less m) (same.shared ∙ p.shared) in
              let mmaps : (q : Ptr) → (q < m) ⊎ (m + h.size ≤ q) → x.mmaps q ≡ u.mmaps q =
                λ q o. ap_at last.mmaps q ∙ (keep q o).1 ∙ ap_at same.mmaps q in
              (
                record {
                  block_size = ap (λ z. z.mmap_block_size) shared;
                  mapped = λ q o.
                      ap_at last.mapped q ∙ (keep q o).2 ∙ ap_at same.mapped q ∙ ap_at p.mapped q;
                  blocks = λ q o.
                      ap_at last.blocks q ∙ (keep q o).0 ∙ ap_at same.blocks q ∙ ap_at p.blocks q;
                  mmaps = λ q o a b. mmaps q o ∙ p.others q (inl a) (inl b);
                  tail = λ k some_ e.
                      mmaps h.next (Near-side s m h.size h.next next_near some_) ∙ p.tail k some_ e;
                  lead = λ k some_ e.
                      mmaps h.prev (Near-side s m h.size h.prev prev_near some_) ∙ p.lead k some_ e;
                },
                shared,
              )

  -- An MMAP block is unlinked and unmapped: with every lock granted, whatever else the system answers,
  -- its neighbours are linked to each other, and it is taken from the shared record.
  pub release_mmap-Unlinked :
      s.mapped m ≡ true
      → s.mmaps m ≡ some h
      → 0 < h.size
      → Near s m h.size h.next
      → Near s m h.size h.prev
      → Apart h
      → Ends
          (λ _ t. Unlinked s t m h × (t.shared ≡ one_block_less m s.shared))
          (release_mmap sys m s)
  unfolding release_mmap
  release_mmap-Unlinked here head pos next prev apart =
      let off_next = Near-off s m h.size h.next next pos in
      let off_prev = Near-off s m h.size h.prev prev pos in
      Ends.seq _
        (unlink_next-Relinked sys m h s (λ n. locks.granted n (mmap_mutex h.next)) here head next)
        λ a t (e, r). rw e (
          Ends.seq _
            (unlink_prev-Relinked sys m h t (λ n. locks.granted n (mmap_mutex h.prev))
              (ap_at r.mapped m ∙ here) (r.others m off_next ∙ head)
              (Near-Relinked h m h.size apart prev r))
            λ b u (e', r'). rw e' (
              let p = Relinked-Patched h apart r r' in
              Ends.seq _ (unlock_or_report-Same sys (mmap_mutex m) _ u) λ _ v same.
                Ends.seq _ (mutex_destroy-Same sys (mmap_mutex m) v) λ x w same2.
                  Ends.seq _ (when-report-Same (not x) _ _ _ w) λ _ w2 same3.
                    Ends.seq _ (mutexattr_destroy-Same sys (mmap_mutex m) w2) λ y w3 same4.
                      Ends.seq _ (when-report-Same (not y) _ _ _ w3) λ _ w4 same5.
                        release-Patched next prev pos w4 here head p (
                          After-Same same
                            (After-Same same2 (After-Same same3 (After-Same same4 same5))))))
