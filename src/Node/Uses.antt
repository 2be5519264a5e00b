-- ===== src/Node/Uses.antt =====
-- The struct of callbacks of westfield-addon.c over the life of a launcher of westfield-xwayland.c.
use mathlib.Core.List.{append-nil}
use westfield.Node.Xwayland.{XwaylandCallbacks, react}
use westfield.Prelude.{
  ◌≡◌, refl, sym, ◌∙◌, inl, inr, pos, is_minus_one, eq_ℤ, Bool, true, false, not, Option, none,
  some, List, [], ◌∷◌, ◌++◌, Bool-cases, Option-cases, arith,
}
use westfield.Xwayland.Counts.{spawn_xserver-Quiet}
use westfield.Xwayland.Events.{
  calls, Avoids, Step, connection, server_exit, teardown, Run, begin, then_step, calls-append,
}
use westfield.Xwayland.Lifecycle.{IsListening, Holds, Run-Holds}
use westfield.Xwayland.Server.{
  Action, add_source, remove_source, free_server, free_launcher, Launcher,
  westfield_xserver_shutdown, SpawnAnswers, fork_xserver, spawn_xserver,
  westfield_xserver_handle_event, westfield_xserver_exited, westfield_xwayland_teardown,
}
use westfield.Node.Callbacks.{use_struct, react-append, use_struct-append, use_struct-alive}

-- The launcher keeps both callbacks until the struct is freed.
pub record Linked (u : XwaylandCallbacks) (log : List Action) (l : Launcher) : Type 0 where
  pub used : use_struct false (react u log) ≡ some (not l.destroyed_func)
  pub starting : l.starting_func ≡ true
  pub together : l.loop ≡ l.destroyed_func

abbrev pub Uses : XwaylandCallbacks → List Action → Option Launcher → Type 0
Uses u log none = use_struct false (react u log) ≡ some true
Uses u log (some l) = Linked u log l

spawn-starting :
    (a : SpawnAnswers) (l : Launcher) → (spawn_xserver a l).1.starting_func ≡ l.starting_func
unfolding spawn_xserver fork_xserver
spawn-starting a l = elim (Option-cases a.wl_pair) [
  | inl e ↦ ground arith
  | inr (sv, e) ↦ elim (Option-cases a.wm_pair) [
    | inl f ↦ ground arith
    | inr (wm, f) ↦ elim (Option-cases a.display_pipe) [
      | inl g ↦ ground arith
      | inr (ends, g) ↦ elim (Option-cases a.fork) [
        | inl h ↦ ground arith
        | inr (pid, h) ↦ ground arith
      ]
    ]
  ]
]

-- More actions, where the struct is not freed yet.
Linked-after :
    (u : XwaylandCallbacks) (log xs : List Action) (l : Launcher) (freed : Bool)
    → Linked u log l
    → l.destroyed_func ≡ true
    → use_struct false (react u xs) ≡ some freed
    → use_struct false (react u (log ++ xs)) ≡ some freed
Linked-after u log xs l freed linked alive h =
    let so_far : use_struct false (react u log) ≡ some false = ground (arith, linked.used) in
    rw (react-append u log xs) (use_struct-append false false (react u log) (react u xs) so_far ∙ h)

-- westfield_xserver_shutdown with the callback: the struct is used once more and freed.
shutdown-react :
    (u : XwaylandCallbacks) (l : Launcher)
    → l.destroyed_func ≡ true
    → use_struct false (react u (westfield_xserver_shutdown l).1) ≡ some true
unfolding westfield_xserver_shutdown react
shutdown-react u l d = elim (Bool-cases (eq_ℤ l.pid (pos 0))) [
  | inl e ↦ rw (e, d) refl
  | inr e ↦ rw (e, d) refl
]

connection-Linked :
    (u : XwaylandCallbacks) (log : List Action) (l : Launcher) (a : SpawnAnswers)
    → l.destroyed_func ≡ true
    → Avoids l.unix_fd a
    → Linked u log l
    → let r = westfield_xserver_handle_event a l in Linked u (log ++ r.1) r.0
unfolding westfield_xserver_handle_event
connection-Linked u log l a alive avoids linked =
    let q = spawn_xserver-Quiet a l avoids in
    let r = spawn_xserver a l in
    let starting = spawn-starting a l ∙ linked.starting in
    let together : r.1.loop ≡ r.1.destroyed_func = q.loop ∙ linked.together ∙ sym q.destroyed in
    elim (Bool-cases (is_minus_one r.0)) [
      | inl e ↦
          let run : westfield_xserver_handle_event a l ≡ (record r.1 { pid = r.0 }, r.2) =
            ground arith in
          let quiet = use_struct-alive u r.2 q.called in
          rw run (record {
            used = Linked-after u log r.2 l false linked alive quiet ∙ rw (q.destroyed, alive) refl;
            starting = starting;
            together = together;
          })
      | inr e ↦
          let xs = r.2 ++ remove_source ∷ [] in
          let run : westfield_xserver_handle_event a l
              ≡ (record r.1 { pid = r.0; source = false }, xs) =
            ground arith in
          let none_called : calls xs ≡ 0 =
            omega (arith, calls-append r.2 (remove_source ∷ []), q.called) in
          let quiet = use_struct-alive u xs none_called in
          rw run (record {
            used = Linked-after u log xs l false linked alive quiet ∙ rw (q.destroyed, alive) refl;
            starting = starting;
            together = together;
          })
    ]

exit-Linked :
    (u : XwaylandCallbacks) (log : List Action) (l : Launcher) (watched : Bool)
    → l.destroyed_func ≡ true
    → Linked u log l
    → let r = westfield_xserver_exited watched l in Linked u (log ++ r.1) r.0
unfolding westfield_xserver_exited
exit-Linked u log l watched alive linked =
    let watching : Launcher = record l { pid = pos 0; source = watched } in
    let xs = (westfield_xserver_shutdown watching).1 in
    let last : use_struct false (react u (add_source ∷ xs)) ≡ some true =
      unfold react in shutdown-react u watching alive in
    let run : westfield_xserver_exited watched l
        ≡ ((westfield_xserver_shutdown watching).0, add_source ∷ xs) =
      ground (arith, linked.starting) in
    rw run (record {
      used =
          Linked-after u log (add_source ∷ xs) l true linked alive last
          ∙ unfold westfield_xserver_shutdown in refl;
      starting = unfold westfield_xserver_shutdown in linked.starting;
      together = unfold westfield_xserver_shutdown in refl;
    })

-- The last frees do not concern the struct.
frees-react :
    (u : XwaylandCallbacks) (xs : List Action)
    → react u (xs ++ free_server ∷ free_launcher ∷ []) ≡ react u xs
frees-react u xs =
    react-append u xs (free_server ∷ free_launcher ∷ []) ∙ unfold react in append-nil (react u xs)

teardown-Uses :
    (u : XwaylandCallbacks) (log : List Action) (l : Launcher)
    → Linked u log l
    → Uses u (log ++ westfield_xwayland_teardown l) none
unfolding westfield_xwayland_teardown
teardown-Uses u log l linked = elim (Bool-cases l.loop) [
  | inl e ↦
      let alive : l.destroyed_func ≡ true = ground (arith, linked.together) in
      let xs = (westfield_xserver_shutdown l).1 in
      let run : westfield_xwayland_teardown l ≡ xs ++ free_server ∷ free_launcher ∷ [] =
        ground arith in
      rw run (
        Linked-after u log (xs ++ free_server ∷ free_launcher ∷ []) l true linked alive
          (rw (frees-react u xs) (shutdown-react u l alive)))
  | inr e ↦
      let gone : l.destroyed_func ≡ false = ground (arith, linked.together) in
      let run : westfield_xwayland_teardown l ≡ free_server ∷ free_launcher ∷ [] = ground arith in
      rw (run, frees-react u log) (linked.used ∙ rw gone refl)
]

Step-Uses :
    (u : XwaylandCallbacks) (start : Launcher) (log : List Action) {actions : List Action}
    {x y : Option Launcher}
    → Holds start log x
    → Uses u log x
    → Step x actions y
    → Uses u (log ++ actions) y
Step-Uses u start log inv linked (connection l a s h) =
    let alive : l.destroyed_func ≡ true = ground (arith, linked.together, inv.stopped) in
    connection-Linked u log l a alive h linked
Step-Uses u start log inv linked (server_exit l pid watched w p) =
    let alive : l.destroyed_func ≡ true = ground (arith, linked.together, inv.stopped) in
    exit-Linked u log l watched alive linked
Step-Uses u start log inv linked (teardown l) = teardown-Uses u log l linked

-- A launcher that setupXWayland has made.
pub record IsSetUp (l : Launcher) : Type 0 where
  pub listening : IsListening l
  pub starting : l.starting_func ≡ true
  pub destroyed : l.destroyed_func ≡ true

-- Over any series of events of a launcher that setupXWayland has made, whose socket no later
-- descriptor equals, the struct of callbacks is never used or freed after it was freed; it is freed
-- once the callback for the end of the server has been called, and has been freed after the
-- teardown.
pub Run-Uses :
    {start : Launcher} {log : List Action} {x : Option Launcher} (u : XwaylandCallbacks)
    → IsSetUp start
    → Run start log x
    → Uses u log x
unfolding react
Run-Uses u up begin = record {
  used = rw up.destroyed refl;
  starting = up.starting;
  together = up.listening.loop ∙ sym up.destroyed;
}
Run-Uses {start} u up (then_step {log} run step) =
    Step-Uses u start log (Run-Holds up.listening run) (Run-Uses u up run) step
