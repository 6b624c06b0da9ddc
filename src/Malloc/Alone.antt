-- ===== src/Malloc/Alone.antt =====
-- The steps of Malloc/Entry.antt, taken by one thread alone, against vgc_malloc of src/vgc_malloc.c.
use vgc_malloc.Base.{ℕ, ◌≡◌, refl, ◌==◌, Bool-cases, inl, inr}
use vgc_malloc.Memory.{null, map_failed, State, Run, M, ok, fault, out_of_fuel, and_then, ◌>>=◌}
use vgc_malloc.System.{System}
use vgc_malloc.Malloc.Region.{mmap_block_allocate}
use vgc_malloc.Malloc.Api.{malloc}
use vgc_malloc.Malloc.Entry.{entering, act, proceed}

join :
    {A B C : Type 0} (r : Run A) (f : A → M B) (g : B → M C) (h : A → M C)
    → ((a : A) (t : State) → and_then (f a t) g ≡ h a t)
    → and_then (and_then r f) g ≡ and_then r h
join (ok a s) f g h e = e a s
join fault f g h e = refl
join out_of_fuel f g h e = refl

-- A thread that no other interrupts does in its steps what vgc_malloc does, whatever the system answers.
pub act-malloc :
    (sys : System) (size : ℕ) (s : State)
    → (do
      x ← act sys entering
      y ← act sys x
      z ← act sys y
      last ← act sys z
      proceed sys size last)
        s
      ≡ malloc sys size s
unfolding act malloc proceed
act-malloc sys size s = elim (Bool-cases (s.shared.mmap_block_first == null)) [
  | inl e ↦ rw e (
      join (mmap_block_allocate sys s.shared.mmap_block_size null s) _ _ _
        λ p t. elim (Bool-cases (p == map_failed)) [ inl z ↦ rw z refl | inr z ↦ rw z refl ])
  | inr e ↦ rw e refl
]
