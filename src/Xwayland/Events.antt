-- ===== src/Xwayland/Events.antt =====
-- The events of a launcher that has been set up, and how often an action occurs in what they do
-- (westfield-xwayland.c).
use westfield.Prelude.{
  ℕ, suc, ◌+◌, ◌≡◌, ℤ, pos, eq_ℤ, Bool, true, false, Option, none, some, List, [], ◌∷◌, ◌++◌, arith,
}
use westfield.Xwayland.Server.{
  Action, close_fd, call_destroyed, free_server, Launcher, SpawnAnswers,
  westfield_xserver_handle_event, westfield_xserver_exited, westfield_xwayland_teardown,
}

abbrev pub bit : Bool → ℕ
bit true = 1
bit false = 0

-- How often a descriptor is closed, the callback is called, and the server is freed.
abbrev pub closes : ℤ → List Action → ℕ
closes u [] = 0
closes u (close_fd fd ∷ xs) = bit (eq_ℤ u fd) + closes u xs
closes u (_ ∷ xs) = closes u xs

abbrev pub calls : List Action → ℕ
calls [] = 0
calls (call_destroyed ∷ xs) = 1 + calls xs
calls (_ ∷ xs) = calls xs

abbrev pub frees : List Action → ℕ
frees [] = 0
frees (free_server ∷ xs) = 1 + frees xs
frees (_ ∷ xs) = frees xs

pub closes-append : (u : ℤ) (xs ys : List Action) → closes u (xs ++ ys) ≡ closes u xs + closes u ys
closes-append u [] ys = omega arith
closes-append u (close_fd fd ∷ xs) ys = omega (arith, closes-append u xs ys)
closes-append u (_ ∷ xs) ys = closes-append u xs ys

pub calls-append : (xs ys : List Action) → calls (xs ++ ys) ≡ calls xs + calls ys
calls-append [] ys = omega arith
calls-append (call_destroyed ∷ xs) ys = omega (arith, calls-append xs ys)
calls-append (_ ∷ xs) ys = calls-append xs ys

pub frees-append : (xs ys : List Action) → frees (xs ++ ys) ≡ frees xs + frees ys
frees-append [] ys = omega arith
frees-append (free_server ∷ xs) ys = omega (arith, frees-append xs ys)
frees-append (_ ∷ xs) ys = frees-append xs ys

-- The system never hands out a descriptor that is open.
abbrev pub AvoidsPair : ℤ → Option (ℤ × ℤ) → Type 0
AvoidsPair u none = Unit
AvoidsPair u (some (a, b)) = (eq_ℤ u a ≡ false) × (eq_ℤ u b ≡ false)

abbrev pub Avoids : ℤ → SpawnAnswers → Type 0
Avoids u a = AvoidsPair u a.wl_pair × AvoidsPair u a.wm_pair × AvoidsPair u a.display_pipe

-- The events: a connection while the loop watches the socket, the exit of the process that is
-- watched, and the teardown, after which the launcher is gone.
pub data Step : Option Launcher → List Action → Option Launcher → Type 0 where
  connection :
      (l : Launcher) (a : SpawnAnswers)
      → l.source ≡ true
      → Avoids l.unix_fd a
      → Step
          (some l)
          (westfield_xserver_handle_event a l).1
          (some (westfield_xserver_handle_event a l).0)
  server_exit :
      (l : Launcher) (pid : ℕ) (watched : Bool)
      → l.process ≡ some (suc pid)
      → l.pid ≡ pos (suc pid)
      → Step
          (some l)
          (westfield_xserver_exited watched l).1
          (some (westfield_xserver_exited watched l).0)
  teardown : (l : Launcher) → Step (some l) (westfield_xwayland_teardown l) none

pub data Run (start : Launcher) : List Action → Option Launcher → Type 0 where
  begin : Run start [] (some start)
  then_step :
      {log actions : List Action} {x y : Option Launcher}
      → Run start log x
      → Step x actions y
      → Run start (log ++ actions) y
