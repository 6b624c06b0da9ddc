-- ===== src/Mprotect.antt =====
-- src/vgc_mprotect.c: the guard page of a malloc header is made inaccessible and accessible again.
pub mod Laws
use vgc_malloc.Base.{ℕ, suc, Bool, true, false, String, ◌∷◌, if◌then◌else◌}
use vgc_malloc.Errno.{Errno, success, eacces, einval, enomem, Message, message}
use vgc_malloc.Memory.{Ptr, State, M, ok, update}
use vgc_malloc.System.{System}

-- `on` is PROT_NONE.
abbrev pub direction : Bool → String
direction true = "protecting returned"
direction false = "unprotecting returned"

abbrev pub mprotect_message : Errno → Bool → Message
mprotect_message eacces on = message "Error" (direction on) ""
mprotect_message einval on = message "Error" (direction on) ""
mprotect_message enomem on = message "Error" (direction on) ""
mprotect_message _ on = message "Unknown error" (direction on) ""

module _ (sys : System) where
  unfoldable pub do_mprotect : Ptr → Bool → M Bool
  do_mprotect p on s = elim (sys.mprotect s.calls p) [
    | success ↦ ok true (record s { guarded = update s.guarded p on; calls = suc s.calls })
    | e ↦ ok false (record s { log = mprotect_message e on ∷ s.log; calls = suc s.calls })
  ]

  -- VGC_mprotect
  unfoldable pub mprotect : Ptr → M Bool
  mprotect header = do_mprotect header true

  -- VGC_munprotect
  unfoldable pub munprotect : Ptr → M Bool
  munprotect header = do_mprotect header false
