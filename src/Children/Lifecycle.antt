-- ===== src/Children/Lifecycle.antt =====
-- src/vgc_mprotect_mp.c: how the table is set up and torn down, and how a process enters and leaves it.
use vgc_malloc.Base.{
  ℕ, Bool, true, false, ◌&&◌, not, Option, none, some, String, List, [], ◌∷◌, ◌==◌, ltb,
  if◌then◌else◌,
}
use vgc_malloc.Errno.{Errno, other}
use vgc_malloc.Children.{
  Child, Calls, World, Family, removed, closed, unlinked, called, note, report,
}
use vgc_malloc.Children.Table.{find_free_child, count_children}
use vgc_malloc.Children.Thread.{start_at, remove_child_thread}
use vgc_malloc.Children.Server.{is_success}

-- `errno == EEXIST`, the number 17
abbrev pub is_eexist : Errno → Bool
is_eexist (other n) = n == 17
is_eexist _ = false

-- The loop of initChildDebugCorruption over the table.
unfoldable pub clear_children : List Child → List Child
clear_children [] = []
clear_children (c ∷ cs) = record c { pid = 0; thread = 0 } ∷ clear_children cs

-- The loop over the directory: the sockets are removed.
unfoldable pub remove_sockets : List (String × Bool) → World → World
remove_sockets [] w = w
remove_sockets ((name, is_socket) ∷ es) w =
    remove_sockets es (if is_socket then note (removed name) (called [] w) else w)

abbrev no_table : List Child → Bool
no_table [] = true
no_table (c ∷ cs) = false

module _ (sys : Calls) where
  -- The files of the directory of sockets, if it can be read.
  unfoldable pub clean_sockets : World → World
  unfolding remove_sockets
  clean_sockets w = elim (sys.entries w.calls) [
    | none ↦ called [] w
    | some es ↦ remove_sockets es (called [] w)
  ]

  -- initChildDebugCorruption. `mkdir` sets `errno` only where it fails.
  unfoldable pub init_child_debug_corruption : Family → Family
  unfolding clear_children clean_sockets
  init_child_debug_corruption s =
      let e = sys.mkdir s.world.calls in
      let w : World = record (called [] s.world) {
        errno = if is_success e then s.world.errno else e;
      } in
      let t : Family = record {
        children = clear_children s.children;
        is_father = false;
        world = w;
      } in
      if not (is_success e) && not (is_eexist e)
      then record t { world = report "Error" "mkdir" "" w }
      else (if is_eexist w.errno then record t { world = clean_sockets w } else t)

  -- startChildThread for the entry that findFreeChild has found in the table `cs`; `false` is where the
  -- caller returns early
  unfoldable pub start_found : Option ℕ → List Child → Family → Bool × Family
  unfolding start_at
  start_found none cs s = (false, record s { children = cs })
  start_found (some n) cs s =
      let (b, ds, w) = start_at sys n cs s.world in (b, record s { children = ds; world = w })

  -- findFreeChild and then startChildThread
  unfoldable pub enter : ℕ → Family → Bool × Family
  unfolding find_free_child start_found
  enter self s = let (pos, cs) = find_free_child self s.children in start_found pos cs s

  -- startChildDebugCorruption, in the process `self`
  unfoldable pub start_child_debug_corruption : ℕ → Family → Family
  unfolding enter count_children
  start_child_debug_corruption self s =
      let (b, t) = enter self s in
      if b && (ltb 1 (count_children t.children) && not t.is_father)
      then (enter self (record t { is_father = true })).1
      else t

  -- The loop of stopChildDebugCorruption.
  unfoldable pub leave : ℕ → List Child → World → List Child × World
  unfolding remove_child_thread
  leave self [] w = ([], w)
  leave self (c ∷ cs) w =
      let (ds, v) = leave self cs w in
      let (c', u) = remove_child_thread sys c w in
      if c.pid == self then (c' ∷ cs, u) else (c ∷ ds, v)

  -- stopChildDebugCorruption, in the process `self`
  unfoldable pub stop_child_debug_corruption : ℕ → Family → Family
  unfolding leave
  stop_child_debug_corruption self s =
      let (cs, w) = leave self s.children s.world in record s { children = cs; world = w }

  -- startMprotect. `none` is an access to the array where `mmap` has failed: the result is compared
  -- with 0 and not with MAP_FAILED.
  unfoldable pub start_mprotect : ℕ → ℕ → Family → Option Family
  unfolding start_child_debug_corruption init_child_debug_corruption
  start_mprotect self max_processes s =
      let start : List Child → Family = λ cs.
        start_child_debug_corruption self
          (init_child_debug_corruption (record s { children = cs; world = called [] s.world })) in
      elim (sys.mmap s.world.calls max_processes) [
        | none ↦ (if max_processes == 0 then some (start []) else none)
        | some cs ↦ some (start cs)
      ]

  -- The entry of the master process.
  abbrev pub clear_master : Child → World → Child × World
  clear_master c w = (
    record c { pid = 0; thread = 0 },
    note (unlinked c.socket_name) (note (closed c.socket_fd) w),
  )

  -- The loop of stopMprotect.
  unfoldable pub stop_all : ℕ → List Child → World → List Child × World
  unfolding remove_child_thread
  stop_all self [] w = ([], w)
  stop_all self (c ∷ cs) w =
      let (c', w') =
        if c.pid == 0
        then (c, w)
        else (if c.pid == self then clear_master c w else remove_child_thread sys c w) in
      let (ds, v) = stop_all self cs w' in (c' ∷ ds, v)

  -- stopMprotect, in the process `self`: the table as it is when it is unmapped, and the world. Where
  -- `shared->children` is 0 there is no entry.
  unfoldable pub stop_mprotect : ℕ → Family → List Child × World
  unfolding stop_all
  stop_mprotect self s =
      let (cs, w) = stop_all self s.children s.world in
      let e = sys.munmap w.calls in
      (
        cs,
        if no_table s.children
            then w
            else if is_success e
            then called [] w
            else report "munmap" "Error" "unmapping MMAP (shared->children)" (called [] w),
      )

  -- startChildMprotect, called at each fork
  unfoldable pub start_child_mprotect : ℕ → Family → Family
  unfolding start_child_debug_corruption
  start_child_mprotect self s = start_child_debug_corruption self s

  -- stopChildMprotect, called at the end of each child
  unfoldable pub stop_child_mprotect : ℕ → Family → Family
  unfolding stop_child_debug_corruption
  stop_child_mprotect self s = stop_child_debug_corruption self s

-- VGC_mallocStatusDebugCorruption
unfoldable pub malloc_status_debug_corruption : package.vgc_malloc.Memory.Shared → String
malloc_status_debug_corruption sh = if sh.is_mprotect_enabled then "enabled" else "disabled"
