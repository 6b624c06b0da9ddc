-- ===== src/System/Laws.antt =====
-- What the wrappers leave alone, whatever the system answers.
use vgc_malloc.Base.{ap, ◌∙◌, ℕ, ◌≡◌, refl, Bool, true, false, String}
use vgc_malloc.Errno.{Errno, success, eownerdead}
use vgc_malloc.Pthread
use vgc_malloc.Memory.{State, Mutex, when, report}
use vgc_malloc.Memory.Ends.{Ends, ends, Same}
use vgc_malloc.System.{
  is_acquired, System, mutex_lock, mutex_unlock, mutex_init, mutexattr_init, mutex_destroy,
  mutexattr_destroy,
}

pub record Locks (sys : System) : Type 0 where
  pub granted : (n : ℕ) (m : Mutex) → sys.lock n m ≡ success

refused_result : (c x d : Errno) → is_acquired c ≡ false → (Pthread.mutex_lock c x d).result ≡ false
unfolding Pthread.mutex_lock
refused_result success x d h = cc
refused_result eownerdead x d h = cc
refused_result _ x d h = refl

module _ (sys : System) where
  pub mutex_lock-granted :
      (m : Mutex) (s : State)
      → sys.lock s.calls m ≡ success
      → Ends (λ a t. (a ≡ true) × Same s t) (mutex_lock sys m s)
  unfolding mutex_lock Pthread.mutex_lock
  mutex_lock-granted m s e = rw e (
      ends
        (refl, record { shared = refl; mapped = refl; bytes = refl; mmaps = refl; blocks = refl }))

  pub mutex_lock-Same :
      Locks sys → (m : Mutex) (s : State) → Ends (λ a t. (a ≡ true) × Same s t) (mutex_lock sys m s)
  mutex_lock-Same g m s = mutex_lock-granted m s (g.granted s.calls m)

  -- A lock that is refused with the error `c`.
  pub mutex_lock-refused :
      (m : Mutex) (s : State) (c : Errno)
      → is_acquired c ≡ false
      → sys.lock s.calls m ≡ c
      → Ends (λ a t. (a ≡ false) × Same s t) (mutex_lock sys m s)
  unfolding mutex_lock
  mutex_lock-refused m s c no_ e = ends (
    ap (λ x. (Pthread.mutex_lock x (sys.consistent s.calls m) (sys.destroy s.calls m)).result) e
        ∙ refused_result c (sys.consistent s.calls m) (sys.destroy s.calls m) no_,
    record { shared = refl; mapped = refl; bytes = refl; mmaps = refl; blocks = refl },
  )

  pub mutex_unlock-Same : (m : Mutex) (s : State) → Ends (λ a t. Same s t) (mutex_unlock sys m s)
  unfolding mutex_unlock
  mutex_unlock-Same m s =
      ends (record { shared = refl; mapped = refl; bytes = refl; mmaps = refl; blocks = refl })

  pub mutex_destroy-Same : (m : Mutex) (s : State) → Ends (λ a t. Same s t) (mutex_destroy sys m s)
  unfolding mutex_destroy
  mutex_destroy-Same m s =
      ends (record { shared = refl; mapped = refl; bytes = refl; mmaps = refl; blocks = refl })

  pub mutexattr_destroy-Same :
      (m : Mutex) (s : State) → Ends (λ a t. Same s t) (mutexattr_destroy sys m s)
  unfolding mutexattr_destroy
  mutexattr_destroy-Same m s =
      ends (record { shared = refl; mapped = refl; bytes = refl; mmaps = refl; blocks = refl })

pub when-report-Same :
    (b : Bool) (t u v : String) (s : State) → Ends (λ a t. Same s t) (when b (report t u v) s)
when-report-Same true t u v s =
    ends (record { shared = refl; mapped = refl; bytes = refl; mmaps = refl; blocks = refl })
when-report-Same false t u v s =
    ends (record { shared = refl; mapped = refl; bytes = refl; mmaps = refl; blocks = refl })

-- Every call on a mutex and its attributes succeeds.
pub record Answers (sys : System) : Type 0 where
  pub locks : Locks sys
  pub unlocked : (n : ℕ) (m : Mutex) → sys.unlock n m ≡ success
  pub made : (n : ℕ) (m : Mutex) → sys.init n m ≡ success
  pub attr_made : (n : ℕ) (m : Mutex) → sys.attr_init n m ≡ success
  pub robust : (n : ℕ) (m : Mutex) → sys.attr_setrobust n m ≡ success
  pub pshared : (n : ℕ) (m : Mutex) → sys.attr_setpshared n m ≡ success
  pub typed : (n : ℕ) (m : Mutex) → sys.attr_settype n m ≡ success

module _ (sys : System) (good : Answers sys) (m : Mutex) (s : State) where
  pub mutex_unlock-granted : Ends (λ a t. (a ≡ true) × Same s t) (mutex_unlock sys m s)
  unfolding mutex_unlock Pthread.mutex_unlock
  mutex_unlock-granted = rw (good.unlocked s.calls m) (
      ends
        (refl, record { shared = refl; mapped = refl; bytes = refl; mmaps = refl; blocks = refl }))

  pub mutex_init-granted : Ends (λ a t. (a ≡ true) × Same s t) (mutex_init sys m s)
  unfolding mutex_init Pthread.mutex_init
  mutex_init-granted = rw (good.made s.calls m) (
      ends
        (refl, record { shared = refl; mapped = refl; bytes = refl; mmaps = refl; blocks = refl }))

  pub mutexattr_init-granted : Ends (λ a t. (a ≡ true) × Same s t) (mutexattr_init sys m s)
  unfolding mutexattr_init Pthread.mutexattr_init Pthread.mutexattr_setrobust
      Pthread.mutexattr_setpshared Pthread.mutexattr_settype
  mutexattr_init-granted =
      rw
        (
          good.attr_made s.calls m,
          good.robust s.calls m,
          good.pshared s.calls m,
          good.typed s.calls m,
        )
        (ends (
          refl,
          record { shared = refl; mapped = refl; bytes = refl; mmaps = refl; blocks = refl },
        ))
