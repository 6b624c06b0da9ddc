-- ===== src/Mprotect/Laws.antt =====
-- VGC_mprotect and VGC_munprotect on the headers.
use vgc_malloc.Base.{refl, ◌≡◌, ◌≢◌, ◌==◌, ◌&&◌, arith}
use vgc_malloc.Errno.{Errno, success}
use vgc_malloc.Memory.{Ptr, State, ok, Run}
use vgc_malloc.Memory.Ends.{Ends, ends, Same}
use vgc_malloc.Memory.Locking.{Balanced}
use vgc_malloc.Memory.Where.{Where, ended}
use vgc_malloc.System.{System}
use vgc_malloc.Mprotect.{do_mprotect, mprotect, munprotect}
use vgc_malloc.Base.{Bool, true, false, suc, ◌∷◌}
use vgc_malloc.Memory.{update}
use vgc_malloc.Mprotect.{mprotect_message}

answer : Errno → Ptr → Bool → State → Run Bool
answer e p on s = elim e [
  | success ↦ ok true (record s { guarded = update s.guarded p on; calls = suc s.calls })
  | e ↦ ok false (record s { log = mprotect_message e on ∷ s.log; calls = suc s.calls })
]

answer-Same :
    (e : Errno) (p : Ptr) (on : Bool) (s : State) → Ends (λ a t. Same s t) (answer e p on s)
unfolding answer
answer-Same success p on s =
    ends (record { shared = refl; mapped = refl; bytes = refl; mmaps = refl; blocks = refl })
answer-Same _ p on s =
    ends (record { shared = refl; mapped = refl; bytes = refl; mmaps = refl; blocks = refl })

module _ (sys : System) (p : Ptr) (s : State) where
  pub mprotect-Same : Ends (λ a t. Same s t) (mprotect sys p s)
  unfolding mprotect do_mprotect answer
  mprotect-Same = answer-Same (sys.mprotect s.calls p) p true s

  pub munprotect-Same : Ends (λ a t. Same s t) (munprotect sys p s)
  unfolding munprotect do_mprotect answer
  munprotect-Same = answer-Same (sys.mprotect s.calls p) p false s

answer-Balanced : (e : Errno) (p : Ptr) (on : Bool) → Balanced (answer e p on)
unfolding answer
answer-Balanced success p on h s e = ended e
answer-Balanced _ p on h s e = ended e

pub do_mprotect-Balanced : (sys : System) (p : Ptr) (on : Bool) → Balanced (do_mprotect sys p on)
unfolding do_mprotect answer
do_mprotect-Balanced sys p on h s e = answer-Balanced (sys.mprotect s.calls p) p on h s e

pub mprotect-Balanced : (sys : System) (p : Ptr) → Balanced (mprotect sys p)
unfolding mprotect
mprotect-Balanced sys p = do_mprotect-Balanced sys p true

pub munprotect-Balanced : (sys : System) (p : Ptr) → Balanced (munprotect sys p)
unfolding munprotect
munprotect-Balanced sys p = do_mprotect-Balanced sys p false

-- A page that is open stays so, unless it is closed.
module _ (sys : System) (p q : Ptr) (s : State) (e : s.guarded p ≡ false) where
  answer-open :
      (c : Errno) (on : Bool)
      → (p == q) && on ≡ false
      → Where (λ t. t.guarded p ≡ false) (answer c q on s)
  unfolding answer
  answer-open success on d = ended (ground arith)
  answer-open _ on d = ended e

  pub munprotect-open : Where (λ t. t.guarded p ≡ false) (munprotect sys q s)
  unfolding munprotect do_mprotect answer
  munprotect-open = answer-open (sys.mprotect s.calls q) false (ground arith)

  pub mprotect-open : p ≢ q → Where (λ t. t.guarded p ≡ false) (mprotect sys q s)
  unfolding mprotect do_mprotect answer
  mprotect-open d = answer-open (sys.mprotect s.calls q) true (ground arith)
