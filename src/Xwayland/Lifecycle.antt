-- ===== src/Xwayland/Lifecycle.antt =====
-- What any series of events on a launcher adds up to (westfield-xwayland.c).
use westfield.Prelude.{
  ℕ, suc, ◌+◌, ◌≡◌, refl, ◌∙◌, inl, inr, pos, is_minus_one, Bool, true, false, Option, none, some,
  List, [], ◌∷◌, ◌++◌, Bool-cases, arith,
}
use westfield.Xwayland.Server.{
  Action, add_source, remove_source, free_server, free_launcher, Launcher, call_if,
  westfield_xserver_shutdown, SpawnAnswers, spawn_xserver, westfield_xserver_handle_event,
  westfield_xserver_exited, westfield_xwayland_teardown,
}
use westfield.Xwayland.Events.{
  bit, closes, calls, frees, closes-append, calls-append, frees-append, Avoids, Step, connection,
  server_exit, teardown, Run, begin, then_step,
}
use westfield.Xwayland.Counts.{shutdown-counts, spawn_xserver-Quiet}

-- The launcher listens, as after setup: it has its event loop and its socket.
pub record IsListening (l : Launcher) : Type 0 where
  pub loop : l.loop ≡ true

-- What holds after every event.
pub record Inv (start : Launcher) (log : List Action) (l : Launcher) : Type 0 where
  same : l.unix_fd ≡ start.unix_fd
  closed : closes start.unix_fd log + bit l.loop ≡ 1
  called : calls log + bit l.destroyed_func ≡ bit start.destroyed_func
  freed : frees log ≡ 0
  pub stopped : l.loop ≡ false → (l.source ≡ false) × (l.destroyed_func ≡ false) × (l.pid ≡ pos 0)

-- What holds after the teardown: the socket has been closed once, the callback has been called once
-- if there is one, and the server has been freed once.
pub record Done (start : Launcher) (log : List Action) : Type 0 where
  pub closed : closes start.unix_fd log ≡ 1
  pub called : calls log ≡ bit start.destroyed_func
  pub freed : frees log ≡ 1

abbrev pub Holds : Launcher → List Action → Option Launcher → Type 0
Holds start log none = Done start log
Holds start log (some l) = Inv start log l

-- An event that closes nothing of the server and calls nothing back.
extend :
    (start : Launcher) (log xs : List Action) (l l' : Launcher)
    → l.loop ≡ true
    → Inv start log l
    → l'.unix_fd ≡ l.unix_fd
    → l'.loop ≡ l.loop
    → l'.destroyed_func ≡ l.destroyed_func
    → closes l.unix_fd xs ≡ 0
    → calls xs ≡ 0
    → frees xs ≡ 0
    → Inv start (log ++ xs) l'
extend start log xs l l' loop inv fd same destroyed c d f = record {
  same = fd ∙ inv.same;
  closed = ground (arith, closes-append start.unix_fd log xs, inv.closed, inv.same);
  called = ground (arith, calls-append log xs, inv.called);
  freed = ground (arith, frees-append log xs, inv.freed);
  stopped = λ e. absurd (ground arith);
}

handle_event-Inv :
    (start : Launcher) (log : List Action) (l : Launcher) (a : SpawnAnswers)
    → l.source ≡ true
    → Avoids l.unix_fd a
    → Inv start log l
    → let r = westfield_xserver_handle_event a l in Inv start (log ++ r.1) r.0
unfolding westfield_xserver_handle_event
handle_event-Inv start log l a s h inv =
    let q = spawn_xserver-Quiet a l h in
    let r = spawn_xserver a l in
    let loop : l.loop ≡ true = ground (arith, inv.stopped) in
    let xs = r.2 ++ remove_source ∷ [] in
    elim (Bool-cases (is_minus_one r.0)) [
      | inl e ↦
          let run : westfield_xserver_handle_event a l ≡ (record r.1 { pid = r.0 }, r.2) =
            ground arith in
          rw run (
            extend start log r.2 l (record r.1 { pid = r.0 }) loop inv q.unix_fd q.loop q.destroyed
              q.closed q.called q.freed)
      | inr e ↦
          let run : westfield_xserver_handle_event a l
              ≡ (record r.1 { pid = r.0; source = false }, xs) =
            ground arith in
          rw run (
            extend start log xs l (record r.1 { pid = r.0; source = false }) loop inv q.unix_fd
              q.loop q.destroyed
              (omega (arith, closes-append l.unix_fd r.2 (remove_source ∷ []), q.closed))
              (omega (arith, calls-append r.2 (remove_source ∷ []), q.called))
              (omega (arith, frees-append r.2 (remove_source ∷ []), q.freed)))
    ]

stopped_closed :
    (start : Launcher) (log : List Action) (l : Launcher) (xs : List Action)
    → l.loop ≡ true
    → Inv start log l
    → closes l.unix_fd xs ≡ 1
    → closes start.unix_fd (log ++ add_source ∷ xs) + 0 ≡ 1
stopped_closed start log l xs loop inv c =
    let one : closes start.unix_fd xs ≡ 1 = rw (← inv.same) c in
    let none_yet : closes start.unix_fd log ≡ 0 = ground (arith, inv.closed) in
    omega (arith, closes-append start.unix_fd log (add_source ∷ xs), one, none_yet)

exited-Inv :
    (start : Launcher) (log : List Action) (l : Launcher) (pid : ℕ) (watched : Bool)
    → l.pid ≡ pos (suc pid)
    → Inv start log l
    → let r = westfield_xserver_exited watched l in Inv start (log ++ r.1) r.0
unfolding westfield_xserver_exited
exited-Inv start log l pid watched p inv =
    let watching = record l { pid = pos 0; source = watched } in
    let c = shutdown-counts watching in
    let xs = (westfield_xserver_shutdown watching).1 in
    let loop : l.loop ≡ true = ground (arith, inv.stopped) in
    elim (Bool-cases l.starting_func) [
      | inl s ↦
          let run : westfield_xserver_exited watched l
              ≡ ((westfield_xserver_shutdown watching).0, add_source ∷ xs) =
            ground arith in
          rw run (record {
            same = unfold westfield_xserver_shutdown in inv.same;
            closed =
                unfold westfield_xserver_shutdown in stopped_closed start log l xs loop inv c.0;
            called =
                unfold westfield_xserver_shutdown in
                omega (arith, calls-append log (add_source ∷ xs), inv.called, c);
            freed = omega (arith, frees-append log (add_source ∷ xs), inv.freed, c);
            stopped = λ e. unfold westfield_xserver_shutdown in (refl, refl, refl);
          })
      | inr s ↦
          let ys = add_source ∷ call_if l.destroyed_func in
          let run : westfield_xserver_exited watched l
              ≡ (record watching { destroyed_func = false }, ys) =
            ground arith in
          rw run (record {
            same = inv.same;
            closed = ground (arith, closes-append start.unix_fd log ys, inv.closed);
            called = ground (arith, calls-append log ys, inv.called);
            freed = ground (arith, frees-append log ys, inv.freed);
            stopped = λ e. absurd (ground arith);
          })
    ]

teardown-Done :
    (start : Launcher) (log : List Action) (l : Launcher)
    → Inv start log l
    → Done start (log ++ westfield_xwayland_teardown l)
unfolding westfield_xwayland_teardown
teardown-Done start log l inv =
    let c = shutdown-counts l in
    let xs = (westfield_xserver_shutdown l).1 in
    let ys = free_server ∷ free_launcher ∷ [] in
    elim (Bool-cases l.loop) [
      | inl e ↦
          let run : westfield_xwayland_teardown l ≡ xs ++ ys = ground arith in
          let none_yet : closes start.unix_fd log ≡ 0 = ground (arith, inv.closed) in
          let one : closes start.unix_fd xs ≡ 1 = rw (← inv.same) c.0 in
          rw run (record {
            closed = omega (
              arith,
              closes-append start.unix_fd log (xs ++ ys),
              closes-append start.unix_fd xs ys,
              one,
              none_yet,
            );
            called = omega (arith, calls-append log (xs ++ ys), calls-append xs ys, c, inv.called);
            freed = omega (arith, frees-append log (xs ++ ys), frees-append xs ys, c, inv.freed);
          })
      | inr e ↦
          let run : westfield_xwayland_teardown l ≡ ys = ground arith in
          rw run (record {
            closed = ground (arith, closes-append start.unix_fd log ys, inv.closed);
            called = ground (arith, calls-append log ys, inv.called, inv.stopped e);
            freed = ground (arith, frees-append log ys, inv.freed);
          })
    ]

Step-Holds :
    (start : Launcher) (log : List Action) {actions : List Action} {x y : Option Launcher}
    → Holds start log x
    → Step x actions y
    → Holds start (log ++ actions) y
Step-Holds start log inv (connection l a s h) = handle_event-Inv start log l a s h inv
Step-Holds start log inv (server_exit l pid watched w p) = exited-Inv start log l pid watched p inv
Step-Holds start log inv (teardown l) = teardown-Done start log l inv

-- Over any series of events from a launcher that listens, and whose socket no later descriptor
-- equals: the socket is closed at most once, and the callback of the compositor is called at most
-- once, if there is one. After the teardown each has happened exactly once, and the server has been
-- freed once.
pub Run-Holds :
    {start : Launcher} {log : List Action} {x : Option Launcher}
    → IsListening start
    → Run start log x
    → Holds start log x
Run-Holds h begin = record {
  same = refl;
  closed = ground arith;
  called = omega arith;
  freed = refl;
  stopped = λ e. absurd (ground arith);
}
Run-Holds h (then_step run step) = Step-Holds _ _ (Run-Holds h run) step
