-- ===== src/Tests/Message.antt =====
-- Messages and protection keys at concrete inputs.
use vgc_malloc.Base.{ℕ, ◌≡◌, refl, true, false, none, some, [], ◌∷◌, ◌==◌, length, if◌then◌else◌}
use vgc_malloc.Errno.{success}
use vgc_malloc.Network.{gives}
use vgc_malloc.Pkey.{Keys, Guard, is_accessible, pkey_do_mprotect}
use vgc_malloc.Pkey.Laws.{Grants, do_mprotect-do_mprotect}
use vgc_malloc.Message.{
  Text, Call, pos, repeat, column, type_function, type_title, type_subtitle, dots, message_init,
}
use vgc_malloc.Message.Layout.{column_width}

abbrev name : ℕ → Text
name n = repeat n 97

-- A name of 22 characters has its colon, one of 23 has not.
dots_run : dots (name 22) type_function none ≡ 58 ∷ 32 ∷ []
unfolding dots
dots_run = refl

dots_lost : dots (name 23) type_function none ≡ 32 ∷ []
unfolding dots
dots_lost = refl

-- An empty status leaves the dots of the subtitle out.
dots_empty : dots (name 5) type_subtitle (some []) ≡ []
unfolding dots
dots_empty = refl

message_init_run : message_init (λ t. pos (length t)) (some (name 4)) ≡ pos 4
unfolding message_init
message_init_run = refl

-- `free.c`, line 12, at the level 1.
abbrev call : Call
call = record {
  level = 1;
  base = 102 ∷ 46 ∷ 99 ∷ [];
  line = 12;
  digits = 49 ∷ 50 ∷ [];
  module_name = 86 ∷ [];
  function_name = some (name 4);
  title = some (name 5);
  subtitle = none;
  status = none;
  body = some (name 3);
}

column_width_example :
    (length (column 22 type_function (some (name 23)) none)
      ≡ (if length (name 23) == 23 then 23 else 24))
    × (length (column 28 type_title (some (name 23)) none)
        ≡ (if length (name 23) == 29 then 29 else 30))
column_width_example = column_width (name 23) none

abbrev keys : Keys
keys = record { alloc = λ n. gives 7; protect = λ n p. success; free = λ n. success }

keys-Grants : Grants keys
keys-Grants = record { key = λ n. (7, refl); protects = λ n p. refl; frees = λ n. refl }

abbrev guard : Guard
guard = record {
  pkey = 0;
  given = 3 ∷ [];
  denied = [];
  closed = false;
  page_key = 0;
  log = [];
  calls = 0;
}

do_mprotect-do_mprotect_example :
    let t = (pkey_do_mprotect keys 65536 true guard).1 in
    let u = (pkey_do_mprotect keys 65536 false t).1 in
    ((pkey_do_mprotect keys 65536 true guard).0 ≡ true)
    × ((pkey_do_mprotect keys 65536 false t).0 ≡ true)
    × (u.given ≡ guard.given)
    × (u.closed ≡ false)
    × (u.page_key ≡ t.pkey)
    × (is_accessible u ≡ false)
do_mprotect-do_mprotect_example = do_mprotect-do_mprotect keys 65536 guard keys-Grants
