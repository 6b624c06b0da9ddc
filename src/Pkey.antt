-- ===== src/Pkey.antt =====
-- src/vgc_mprotect_pkey.c: do_mprotect, which closes a page with a protection key of its own. The file is
-- for VGC_MALLOC_MPROTECT_PKEY; its VGC_mprotect and VGC_munprotect call do_mprotect without the last
-- argument, so they are not modelled.
pub mod Laws
use vgc_malloc.Base.{
  ℕ, suc, ◌-◌, word_mod, Bool, true, false, not, List, [], ◌∷◌, ◌==◌, if◌then◌else◌,
}
use vgc_malloc.Errno.{Errno, success, eacces, einval, enomem, enospc, Message, message}
use vgc_malloc.Memory.{Ptr}
use vgc_malloc.Network.{Answer, gives, fails, minus_one}
use vgc_malloc.Mprotect.{direction}

-- The calls of the system, by the number of the call.
pub record Keys : Type 0 where
  pub alloc : ℕ → Answer
  pub protect : ℕ → Ptr → Errno  -- pkey_mprotect
  pub free : ℕ → Errno

-- The header's field `pkey`, the keys that the process has been given, the keys that deny access to the
-- thread, whether the page is PROT_NONE, the key that it is under, the messages, and the number of calls.
-- A key denies access as pkey_alloc has asked for it; pkey_mprotect and pkey_free leave that alone.
pub record Guard : Type 0 where
  pub pkey : ℕ
  pub given : List ℕ
  pub denied : List ℕ
  pub closed : Bool
  pub page_key : ℕ
  pub log : List Message
  pub calls : ℕ

abbrev pub has_key : ℕ → List ℕ → Bool
has_key k [] = false
has_key k (x ∷ xs) = let rest = has_key k xs in if k == x then true else rest

-- The thread can use the page.
abbrev pub is_accessible : Guard → Bool
is_accessible s = if s.closed then false else not (has_key s.page_key s.denied)

-- The key goes back.
abbrev pub give_back : ℕ → List ℕ → List ℕ
give_back k [] = []
give_back k (x ∷ xs) = let rest = give_back k xs in if k == x then xs else x ∷ rest

-- The message for a key that is not given.
abbrev pub alloc_message : Errno → Message
alloc_message einval = message "Error" "protecting returned" ""
alloc_message enospc = message "Error" "protecting returned" ""
alloc_message _ = message "Unknown error" "protecting returned" ""

-- The message after pkey_mprotect or pkey_free has failed.
abbrev pub protect_message : Errno → Bool → Message
protect_message eacces on = message "Error" (direction on) ""
protect_message einval on = message "Error" (direction on) ""
protect_message enomem on = message "Error" (direction on) ""
protect_message _ on = message "Unknown error" (direction on) ""

abbrev pub fail : Message → Guard → Bool × Guard
fail m s = (false, record s { log = m ∷ s.log })

module _ (sys : Keys) where
  -- pkey_free, and what follows it.
  unfoldable pub free_key : Guard → Bool × Guard
  free_key s =
      let t = record s { calls = suc s.calls } in
      elim (sys.free s.calls) [
        | success ↦ (true, record t { given = give_back s.pkey s.given; pkey = 0 })
        | e ↦ fail (protect_message e false) t
      ]

  -- pkey_mprotect, and what follows it.
  unfoldable pub protect_page : Ptr → Bool → Guard → Bool × Guard
  unfolding free_key
  protect_page addr on s =
      let t = record s { calls = suc s.calls } in
      elim (sys.protect s.calls addr) [
        | success ↦
            (let u = record t { closed = on; page_key = s.pkey } in
              if on then (true, u) else free_key u)
        | e ↦ fail (protect_message e on) t
      ]

  -- do_mprotect; `on` is PROT_NONE
  unfoldable pub pkey_do_mprotect : Ptr → Bool → Guard → Bool × Guard
  unfolding protect_page
  pkey_do_mprotect addr false s = protect_page addr false s
  pkey_do_mprotect addr true s =
      let t = record s { calls = suc s.calls } in
      elim (sys.alloc s.calls) [
        | gives k ↦
            protect_page addr true
              (record t { pkey = k; given = k ∷ s.given; denied = k ∷ s.denied })
        | fails e ↦ fail (alloc_message e) (record t { pkey = minus_one })
      ]
