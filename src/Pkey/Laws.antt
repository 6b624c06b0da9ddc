-- ===== src/Pkey/Laws.antt =====
-- The protection keys that are given and go back.
use vgc_malloc.Base.{ℕ, suc, ◌≡◌, refl, true, false, ◌∷◌, eqb_true}
use vgc_malloc.Errno.{success}
use vgc_malloc.Memory.{Ptr}
use vgc_malloc.Network.{gives}
use vgc_malloc.Pkey.{Keys, Guard, is_accessible, free_key, protect_page, pkey_do_mprotect}

-- Every call of the system succeeds.
pub record Grants (sys : Keys) : Type 0 where
  pub key : (n : ℕ) → (k : ℕ) × (sys.alloc n ≡ gives k)
  pub protects : (n : ℕ) (p : Ptr) → sys.protect n p ≡ success
  pub frees : (n : ℕ) → sys.free n ≡ success

abbrev closed_with : ℕ → Guard → Guard
closed_with k s = record s {
  pkey = k;
  given = k ∷ s.given;
  denied = k ∷ s.denied;
  closed = true;
  page_key = k;
  calls = suc (suc s.calls);
}

module _ (sys : Keys) (addr : Ptr) where
  protect_page-closes :
      (s : Guard)
      → sys.protect s.calls addr ≡ success
      → protect_page sys addr true s
        ≡ (true, record s { closed = true; page_key = s.pkey; calls = suc s.calls })
  unfolding protect_page
  protect_page-closes s e = rw (protect_page, e) refl

  closes :
      (s : Guard) (k : ℕ)
      → sys.alloc s.calls ≡ gives k
      → sys.protect (suc s.calls) addr ≡ success
      → pkey_do_mprotect sys addr true s ≡ (true, closed_with k s)
  unfolding pkey_do_mprotect
  closes s k e f =
      rw (pkey_do_mprotect, e)
        (protect_page-closes
          (record s { pkey = k; given = k ∷ s.given; denied = k ∷ s.denied; calls = suc s.calls })
          f)

  opens :
      (s : Guard) (k : ℕ)
      → sys.protect (suc (suc s.calls)) addr ≡ success
      → sys.free (suc (suc (suc s.calls))) ≡ success
      → pkey_do_mprotect sys addr false (closed_with k s) ≡ (
        true,
        record s {
          pkey = 0;
          given = s.given;
          denied = k ∷ s.denied;
          closed = false;
          page_key = k;
          calls = suc (suc (suc (suc s.calls)));
        },
      )
  unfolding pkey_do_mprotect protect_page free_key
  opens s k e f = rw (protect_page, e, free_key, f, eqb_true {a = k} {b = k} refl) refl

  -- A page that is closed with a protection key and opened again stays out of reach: where every call
  -- succeeds, both calls of do_mprotect return true, the process has the keys that it had, and the
  -- page is not PROT_NONE, but the thread cannot use it. It is still under the key that was freed,
  -- which denies access.
  pub do_mprotect-do_mprotect :
      (s : Guard)
      → Grants sys
      → let t = (pkey_do_mprotect sys addr true s).1 in
        let u = (pkey_do_mprotect sys addr false t).1 in
        ((pkey_do_mprotect sys addr true s).0 ≡ true)
        × ((pkey_do_mprotect sys addr false t).0 ≡ true)
        × (u.given ≡ s.given)
        × (u.closed ≡ false)
        × (u.page_key ≡ t.pkey)
        × (is_accessible u ≡ false)
  do_mprotect-do_mprotect s g =
      let (k, e) = g.key s.calls in
      rw
        (
          closes s k e (g.protects (suc s.calls) addr),
          opens s k (g.protects (suc (suc s.calls)) addr) (g.frees (suc (suc (suc s.calls)))),
        )
        (refl, refl, refl, refl, refl, rw (eqb_true {a = k} {b = k} refl) refl)
