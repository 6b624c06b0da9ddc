-- ===== src/Children/Table.antt =====
-- src/vgc_mprotect_mp.c: findFreeChild and countChildren. A loop over the table is a recursion on it.
use vgc_malloc.Base.{
  ℕ, suc, Bool, true, false, Option, none, some, List, [], ◌∷◌, ◌==◌, not, if◌then◌else◌,
}
use vgc_malloc.Children.{Child}

-- The first loop of findFreeChild.
unfoldable pub is_registered : ℕ → List Child → Bool
is_registered pid [] = false
is_registered pid (c ∷ cs) = let rest = is_registered pid cs in if c.pid == pid then true else rest

abbrev pub one_further : Option ℕ × List Child → Child → Option ℕ × List Child
one_further (none, cs) c = (none, c ∷ cs)
one_further (some n, cs) c = (some (suc n), c ∷ cs)

-- The second loop of findFreeChild: the first free entry gets the pid.
unfoldable pub claim : ℕ → List Child → Option ℕ × List Child
claim pid [] = (none, [])
claim pid (c ∷ cs) =
    let rest = claim pid cs in
    if c.pid == 0 then (some 0, record c { pid = pid } ∷ cs) else one_further rest c

-- findFreeChild; `none` is -1
unfoldable pub find_free_child : ℕ → List Child → Option ℕ × List Child
find_free_child pid cs = if is_registered pid cs then (none, cs) else claim pid cs

-- countChildren
unfoldable pub count_children : List Child → ℕ
count_children [] = 0
count_children (c ∷ cs) =
    let rest = count_children cs in if not (c.pid == 0) then suc rest else rest
