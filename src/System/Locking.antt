-- ===== src/System/Locking.antt =====
-- The locks that the wrappers take and give up.
use vgc_malloc.Base.{
  ℕ, String, ◌≡◌, refl, ap, ◌∙◌, Bool, true, false, Option, none, some, List, ◌∷◌, Bool-cases,
  eqb_true, inl, inr,
}
use vgc_malloc.Errno.{Errno, success, eownerdead}
use vgc_malloc.Pthread
use vgc_malloc.Memory.{Ptr, Mutex, shared_mutex, mmap_mutex, same_mutex, State, ok, M, and_then}
use vgc_malloc.Memory.Locking.{Leaves, Leaves-seq, Balanced, lock_rules}
use vgc_malloc.Memory.Where.{ended, Where-seq}
use vgc_malloc.System.{
  System, mutex_lock, mutex_unlock, mutex_init, mutexattr_init, mutex_destroy, mutexattr_destroy,
  mmap, munmap, release, is_acquired,
}
use vgc_malloc.Mprotect.Laws.{mprotect-Balanced, munprotect-Balanced}
use vgc_malloc.Malloc.Locks.{unlock_or_report}

-- A mutex can be given up by its owner, and be made consistent after its owner has died.
pub record Unlocks (sys : System) : Type 0 where
  pub unlocked : (n : ℕ) (m : Mutex) → sys.unlock n m ≡ success
  pub mended : (n : ℕ) (m : Mutex) → sys.consistent n m ≡ success

-- The result of the wrapper says whether the mutex was acquired.
lock_result :
    (code destroyed : Errno) → (Pthread.mutex_lock code success destroyed).result ≡ is_acquired code
unfolding Pthread.mutex_lock
lock_result success d = refl
lock_result eownerdead d = refl
lock_result _ d = refl

-- A mutex is its own: what is given up is the latest hold.
same_mutex_refl : (m : Mutex) → same_mutex m m ≡ true
same_mutex_refl shared_mutex = refl
same_mutex_refl (mmap_mutex p) = eqb_true {a = p} {b = p} refl

release-cons : (m : Mutex) (h : List Mutex) → release m (m ∷ h) ≡ h
release-cons m h = rw (same_mutex_refl m)

module _ (sys : System) where
  pub mutex_init-Balanced : (m : Mutex) → Balanced (mutex_init sys m)
  unfolding mutex_init
  mutex_init-Balanced m h s e = ended e

  pub mutexattr_init-Balanced : (m : Mutex) → Balanced (mutexattr_init sys m)
  unfolding mutexattr_init
  mutexattr_init-Balanced m h s e = ended e

  pub mutex_destroy-Balanced : (m : Mutex) → Balanced (mutex_destroy sys m)
  unfolding mutex_destroy
  mutex_destroy-Balanced m h s e = ended e

  pub mutexattr_destroy-Balanced : (m : Mutex) → Balanced (mutexattr_destroy sys m)
  unfolding mutexattr_destroy
  mutexattr_destroy-Balanced m h s e = ended e

  pub munmap-Balanced : (p : Ptr) (n : ℕ) → Balanced (munmap sys p n)
  unfolding munmap
  munmap-Balanced p n h s e = elim (Bool-cases (sys.munmap s.calls p n)) [
    | inl b ↦ rw b (ended e)
    | inr b ↦ rw b (ended e)
  ]

  mapped :
      {h : List Mutex} (o : Option Ptr) (s : State) (f : Ptr → State)
      → s.held ≡ h
      → ((p : Ptr) → (f p).held ≡ h)
      → Leaves h (elim o [ none ↦ ok none s | some p ↦ ok (some p) (f p) ])
  mapped none s f e e' = ended e
  mapped (some p) s f e e' = ended (e' p)

  pub mmap-Balanced : (n : ℕ) → Balanced (mmap sys n)
  unfolding mmap
  mmap-Balanced n h s e = mapped (sys.mmap s.calls n) _ _ e (λ p. e)

module _ (sys : System) (good : Unlocks sys) {h : List Mutex} where
  -- The rest of the code, where the lock was refused and where it was granted.
  pub mutex_lock-then :
      {B : Type 0} {g : List Mutex} (s : State) (m : Mutex) (k : Bool → M B)
      → s.held ≡ g
      → ((t : State) → t.held ≡ g → Leaves h (k false t))
      → ((t : State) → t.held ≡ m ∷ g → Leaves h (k true t))
      → Leaves h (and_then (mutex_lock sys m s) k)
  unfolding mutex_lock
  mutex_lock-then s m k e refused granted =
      let code = sys.lock s.calls m in
      let result = lock_result code (sys.destroy s.calls m) in
      elim (Bool-cases (is_acquired code)) [
        | inl b ↦ rw (good.mended s.calls m) (rw (result, b) (granted _ (ap (λ x. m ∷ x) e)))
        | inr b ↦ rw (good.mended s.calls m) (rw (result, b) (refused _ e))
      ]

  pub unlock-Leaves :
      (s : State) (m : Mutex) (status : String)
      → s.held ≡ m ∷ h
      → Leaves h (unlock_or_report sys m status s)
  unfolding unlock_or_report mutex_unlock Pthread.mutex_unlock
  unlock-Leaves s m status e =
      rw (good.unlocked s.calls m) (ended (ap (release m) e ∙ release-cons m h))

  pub unlock-then :
      {B : Type 0} (s : State) (m : Mutex) (status : String) (k : Unit {0} → M B)
      → s.held ≡ m ∷ h
      → ((t : State) → t.held ≡ h → Leaves h (k tt t))
      → Leaves h (and_then (unlock_or_report sys m status s) k)
  unlock-then s m status k e next = Where-seq k (unlock-Leaves s m status e) λ _ t e'. next t e'

  pub unlock_bool-then :
      {B : Type 0} (s : State) (m : Mutex) (k : Bool → M B)
      → s.held ≡ m ∷ h
      → ((t : State) (b : Bool) → t.held ≡ h → Leaves h (k b t))
      → Leaves h (and_then (mutex_unlock sys m s) k)
  unfolding mutex_unlock Pthread.mutex_unlock
  unlock_bool-then s m k e next =
      rw (good.unlocked s.calls m) (next _ true (ap (release m) e ∙ release-cons m h))

pub ruleset system_lock_rules = (
  lock_rules, mutex_init-Balanced, mutexattr_init-Balanced, mutex_destroy-Balanced,
  mutexattr_destroy-Balanced, munmap-Balanced, mmap-Balanced, mprotect-Balanced,
  munprotect-Balanced,
)
