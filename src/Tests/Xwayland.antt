-- ===== src/Tests/Xwayland.antt =====
-- A system with three lock files: that of display 1 names a process that runs, that of display 2 one
-- that does not.
use westfield.Prelude.{
  ℕ, ◌+◌, ◌≤◌, ◌≡◌, ◌≢◌, ◌⊎◌, refl, inl, pos, negsuc, eq_ℤ, Bool, true, false, none, some, [], ◌∷◌,
  ◌++◌, ◌==◌, ◌||◌, if◌then◌else◌, arith,
}
use westfield.Xwayland.Display.{locked, out_of_fuel, lock_display}
use westfield.Xwayland.Events.{
  closes, frees, Run, begin, then_step, connection, server_exit, teardown,
}
use westfield.Xwayland.Failures.{
  SetsUp, removals, westfield_xwayland_setup-frees, westfield_xwayland_setup-IsSetUp,
  teardown-keeps_source,
}
use westfield.Xwayland.Lifecycle.{Done, Run-Holds}
use westfield.Xwayland.Lockfile.{safe_strtoint}
use westfield.Xwayland.Number.{InRange, OutOfRange, safe_strtoint_lem}
use westfield.Xwayland.Os.{eexist, ok, failed, Strtol, Os, LockLaws}
use westfield.Xwayland.Searching.{Locks, lock_display-Locks, lock_display-ends}
use westfield.Xwayland.Server.{
  Launcher, SpawnAnswers, SocketAnswers, spawn_xserver, westfield_xserver_handle_event,
  westfield_xserver_exited, westfield_xwayland_teardown, westfield_xserver_listen,
  westfield_xwayland_setup,
}

-- Which displays have a lock file.
abbrev Files : Type 0
Files = ℕ → Bool

abbrev put : ℕ → Bool → Files → Files
put d b w e = if e == d then b else w e

-- The file of display `d` has descriptor 10 + d, and holds that number as its pid.
abbrev system : Os Files
system = record {
  open_create = λ d w. if w d then (failed eexist, w) else (ok (pos 5), put d true w);
  open_read = λ d w. (ok (pos (10 + d)), w);
  read = λ fd w. elim fd [ pos n ↦ some (n ∷ []) | negsuc n ↦ none ];
  strtol = λ bytes. elim bytes [
    | [] ↦ record { value = pos 0; error = false; no_digits = true; at_end = true }
    | n ∷ more ↦ record { value = pos n; error = false; no_digits = false; at_end = true }
  ];
  process_exists = λ pid w. eq_ℤ pid (pos 11);
  unlink = λ d w. (true, put d false w);
  print_pid = λ fd w. (none, w);
}

abbrev files : Files
files d = d == 1 || d == 2 || d == 4

abbrev present : Files → ℕ → Bool
present w d = w d

system-LockLaws : LockLaws system present
system-LockLaws = record {
  create_present = λ d w p. ground arith;
  create_absent = λ d w p. inl (pos 5, ground arith, ground arith, λ e n. ground arith);
  open_read = λ d w. refl;
  unlinked = λ d w u. ground arith;
  unlink_fails = λ d w u. absurd (ground arith);
  unlink_others = λ d e w n. ground arith;
  print_errno = λ fd w. inl refl;
  print_others = λ fd w e. refl;
}

abbrev files_after : Files
files_after = put 2 true (put 2 false files)

-- Display 1 is in use, and the lock of display 2 is stale.
search_finds : lock_display system 7 1 files ≡ locked 2 files_after
unfolding lock_display
search_finds = refl

lock_display-Locks_example : Locks system present system-LockLaws 1 files 2 files_after
lock_display-Locks_example =
    lock_display-Locks system present system-LockLaws 7 1 2 files files_after search_finds

files-free : (e : ℕ) → 5 ≤ e → present files e ≡ false
files-free e h = ground arith

lock_display-ends_example : lock_display system 9 1 files ≢ out_of_fuel
lock_display-ends_example =
    lock_display-ends system present system-LockLaws 5 9 1 files files-free (omega arith)
      (omega arith)

-- A pid past the range of int32_t.
abbrev long_pid : Strtol
long_pid = record { value = pos 2147483648; error = false; no_digits = false; at_end = true }

safe_strtoint_example :
    ((safe_strtoint long_pid ≡ some long_pid.value)
      × (long_pid.error ≡ false)
      × (long_pid.no_digits ≡ false)
      × (long_pid.at_end ≡ true)
      × InRange long_pid.value)
    ⊎ ((safe_strtoint long_pid ≡ none)
        × ((long_pid.error ≡ true)
            ⊎ ((long_pid.no_digits ≡ true)
                ⊎ ((long_pid.at_end ≡ false) ⊎ OutOfRange long_pid.value))))
safe_strtoint_example = safe_strtoint_lem long_pid

abbrev socket_ok : SocketAnswers
socket_ok = record { socket = some (pos 20); bound = true; listening = true; watched = true }

abbrev listening : Launcher
listening = record {
  display = 2;
  unix_fd = pos 20;
  pid = pos 0;
  source = true;
  loop = true;
  starting_func = true;
  destroyed_func = true;
  wm_fd = pos 0;
  display_fd = pos 0;
  process = none;
}

setup_listens :
    (westfield_xwayland_setup true true system 7 files socket_ok true).0 ≡ some listening
unfolding westfield_xwayland_setup westfield_xserver_listen lock_display
setup_listens = refl

westfield_xwayland_setup-IsSetUp_example :
    SetsUp system present system-LockLaws 7 files socket_ok
      (westfield_xwayland_setup true true system 7 files socket_ok true)
westfield_xwayland_setup-IsSetUp_example =
    westfield_xwayland_setup-IsSetUp system present system-LockLaws 7 files socket_ok true

-- The socket of the display cannot be bound.
abbrev socket_refused : SocketAnswers
socket_refused = record { socket = some (pos 20); bound = false; listening = true; watched = true }

westfield_xwayland_setup-frees_example :
    let r = westfield_xwayland_setup true true system 9 files socket_refused true in
    (r.0 ≡ none → frees r.1 ≡ 2) × ((l : Launcher) → r.0 ≡ some l → frees r.1 ≡ 0)
westfield_xwayland_setup-frees_example =
    westfield_xwayland_setup-frees system 9 files socket_refused true lock_display-ends_example

abbrev forks : SpawnAnswers
forks = record {
  wl_pair = some (pos 21, pos 22);
  wm_pair = some (pos 23, pos 24);
  display_pipe = some (pos 25, pos 26);
  cloexec_set = true;
  fork = some 99;
}

abbrev fork_fails : SpawnAnswers
fork_fails = record forks { fork = none }

teardown-keeps_source_example :
    let r = westfield_xserver_handle_event fork_fails listening in
    let xs = r.1 ++ westfield_xwayland_teardown r.0 in
    (r.0.source ≡ true) × (removals xs ≡ 0) × (closes (pos 20) xs ≡ 1) × (frees xs ≡ 1)
teardown-keeps_source_example =
    teardown-keeps_source listening fork_fails (record { loop = refl }) refl
      ((refl, refl), (refl, refl), (refl, refl)) (unfold spawn_xserver in refl)

abbrev spawned : Launcher
spawned = (westfield_xserver_handle_event forks listening).0

abbrev exited : Launcher
exited = (westfield_xserver_exited true spawned).0

-- A connection starts the server, which exits, and the launcher is torn down.
whole_life :
    Run listening
      ((([] ++ (westfield_xserver_handle_event forks listening).1)
          ++ (westfield_xserver_exited true spawned).1)
        ++ westfield_xwayland_teardown exited)
      none
unfolding westfield_xserver_handle_event spawn_xserver
whole_life =
    then_step
      (then_step
        (then_step begin
          (connection listening forks refl ((refl, refl), (refl, refl), (refl, refl))))
        (server_exit spawned 99 true refl refl))
      (teardown exited)

Run-Holds_example : Done listening (
    (([] ++ (westfield_xserver_handle_event forks listening).1)
      ++ (westfield_xserver_exited true spawned).1)
    ++ westfield_xwayland_teardown exited)
Run-Holds_example = Run-Holds (record { loop = refl }) whole_life
