-- ===== src/Memory/Where.antt =====
-- Partial correctness of a run: where it ends, the final state has a property. The rules are for
-- `search`, one for each way to build a run.
use vgc_malloc.Base.{Bool, true, false, Option, none, some, if◌then◌else◌}
use vgc_malloc.Memory.{Ptr, State, Run, ok, fault, out_of_fuel, M, and_then, load_mmap, load_block}
use vgc_malloc.Memory.Ends.{Ends, ends}

pub data Where (R : State → Type 0) {A : Type 0} : Run A → Type 0 where
  ended : {a : A} {s : State} → R s → Where R (ok a s)
  faulted : Where R fault
  exhausted : Where R out_of_fuel

module _ {R : State → Type 0} {A : Type 0} where
  -- A run that ends has both properties.
  pub Ends-Where :
      {P : A → State → Type 0} {r : Run A} → Ends P r → Where R r → Ends (λ a t. P a t × R t) r
  Ends-Where (ends p) (ended e) = ends (p, e)

  pub Where-seq :
      {B : Type 0} {S : State → Type 0} {r : Run A} (k : A → M B)
      → Where S r
      → ((a : A) (t : State) → S t → Where R (k a t))
      → Where R (and_then r k)
  Where-seq k (ended e) next = next _ _ e
  Where-seq k faulted next = faulted
  Where-seq k exhausted next = exhausted

  -- The same for code that keeps the property: a rule for `search`.
  pub Where-then :
      {B : Type 0} {r : Run A} (k : A → M B)
      → Where R r
      → ((a : A) (t : State) → R t → Where R (k a t))
      → Where R (and_then r k)
  Where-then = Where-seq

  pub Where-if :
      (s : State) (b : Bool) (m n : M A)
      → Where R (m s)
      → Where R (n s)
      → Where R ((if b then m else n) s)
  Where-if s true m n lm ln = lm
  Where-if s false m n lm ln = ln

  pub Where-option :
      {B : Type 0} (s : State) (o : Option B) (n : M A) (f : B → M A)
      → Where R (n s)
      → ((b : B) → Where R (f b s))
      → Where R (let m : M A = elim o [ none ↦ n | some b ↦ f b ] in m s)
  Where-option s none n f ln lf = ln
  Where-option s (some b) n f ln lf = lf b

-- A load ends where the address is mapped and holds a header, and a store where it is mapped.
module _ (R : State → Type 0) where
  loaded :
      {A : Type 0} (s : State) (b : Bool) (o : Option A)
      → R s
      → Where R (if b then elim o [ none ↦ fault | some x ↦ ok x s ] else fault)
  loaded s true none e = faulted
  loaded s true (some x) e = ended e
  loaded s false o e = faulted

  pub stored : (s : State) (b : Bool) → R s → Where R (if b then ok tt s else fault)
  stored s true e = ended e
  stored s false e = faulted

  pub load_mmap-Where : (p : Ptr) (s : State) → R s → Where R (load_mmap p s)
  unfolding load_mmap
  load_mmap-Where p s e = loaded s (s.mapped p) (s.mmaps p) e

  pub load_block-Where : (p : Ptr) (s : State) → R s → Where R (load_block p s)
  unfolding load_block
  load_block-Where p s e = loaded s (s.mapped p) (s.blocks p) e

pub ruleset where_rules =
    (Where-then, Where-if, Where-option, ended, exhausted, load_mmap-Where, load_block-Where)
