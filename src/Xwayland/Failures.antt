-- ===== src/Xwayland/Failures.antt =====
-- Setup as a whole, and what is left where something fails (westfield-xwayland.c).
use westfield.Prelude.{
  ℕ, ◌+◌, ◌≡◌, ◌≢◌, refl, sym, ap, ◌∙◌, inl, inr, ℤ, pos, minus_one, Bool, true, Option, none, some,
  List, [], ◌∷◌, ◌++◌, Bool-cases, Option-cases, arith,
}
use westfield.Xwayland.Display.{Search, locked, given_up, out_of_fuel, lock_display}
use westfield.Xwayland.Counts.{eq_ℤ-refl, spawn_xserver-Quiet}
use westfield.Xwayland.Events.{closes, closes-append, frees, frees-append, Avoids}
use westfield.Xwayland.Lifecycle.{IsListening}
use westfield.Xwayland.Listening.{
  unlocked, listen_on-made, listen_on-undone, listen_on-works, unlocked-frees,
}
use westfield.Xwayland.Os.{Os, LockLaws}
use westfield.Xwayland.Searching.{Locks, lock_display-Locks}
use westfield.Xwayland.Server.{
  Action, remove_source, add_source, unlink_lock, free_server, free_launcher, Launcher,
  SpawnAnswers, fork_xserver, spawn_xserver, westfield_xserver_shutdown,
  westfield_xserver_handle_event, westfield_xwayland_teardown, SocketAnswers, bind_to_unix_socket,
  listen_on, westfield_xserver_listen, fresh_launcher, westfield_xwayland_setup,
}

-- How often the event loop is told to leave the socket.
abbrev pub removals : List Action → ℕ
removals [] = 0
removals (remove_source ∷ xs) = 1 + removals xs
removals (_ ∷ xs) = removals xs

-- The launcher that setup returns.
pub record IsSetUp {World : Type 0} (os : Os World) (present : World → ℕ → Bool)
    (laws : LockLaws os present) (w : World) (a : SocketAnswers) (l : Launcher) : Type 0 where
  pub listening : IsListening l
  pub pid : l.pid ≡ pos 0
  pub socket : a.socket ≡ some l.unix_fd
  pub bound : a.bound ≡ true
  pub heard : a.listening ≡ true
  pub source : l.source ≡ a.watched
  pub world : World
  pub locks : Locks os present laws 1 w l.display world

-- What setup makes of the answers, where both allocations succeed: the launcher and the actions.
pub record SetsUp {World : Type 0} (os : Os World) (present : World → ℕ → Bool)
    (laws : LockLaws os present) (fuel : ℕ) (w : World) (a : SocketAnswers)
    (r : Option Launcher × List Action) : Type 0 where
  pub made :
      (l : Launcher)
      → r.0 ≡ some l
      → IsSetUp os present laws w a l × (closes l.unix_fd r.1 ≡ 0) × (unlocked r.1 ≡ [])
  -- A search that has locked a display is undone: the lock file and the socket are given back.
  pub undone :
      (d : ℕ) (w' : World)
      → lock_display os fuel 1 w ≡ locked d w'
      → r.0 ≡ none
      → (unlocked r.1 ≡ d ∷ []) × ((fd : ℤ) → a.socket ≡ some fd → closes fd r.1 ≡ 1)
  pub works :
      (d : ℕ) (w' : World) (fd : ℤ)
      → lock_display os fuel 1 w ≡ locked d w'
      → a.socket ≡ some fd
      → a.bound ≡ true
      → a.listening ≡ true
      → (l : Launcher) × (r.0 ≡ some l) × (l.display ≡ d)

bind-frees : (a : SocketAnswers) (d : ℕ) → frees (bind_to_unix_socket a d).1 ≡ 0
unfolding bind_to_unix_socket
bind-frees a d = elim (Option-cases a.socket) [ inl e ↦ ground arith | inr (fd, e) ↦ ground arith ]

listen_on-frees :
    {World : Type 0} (s : Search World) (a : SocketAnswers) (l : Launcher)
    → s ≢ out_of_fuel
    → ((listen_on s a l).0 ≡ none → frees (listen_on s a l).1 ≡ 1)
      × ((l' : Launcher) → (listen_on s a l).0 ≡ some l' → frees (listen_on s a l).1 ≡ 0)
unfolding listen_on
listen_on-frees (locked d w) a l h =
    let b = bind_to_unix_socket a d in
    let none_yet = bind-frees a d in
    elim (Option-cases b.0) [
      | inl e ↦ (
        λ h. ground (arith, frees-append b.1 (unlink_lock d ∷ free_server ∷ [])),
        λ l' h. absurd (ground arith),
      )
      | inr (fd, e) ↦
          (λ h. absurd (ground arith), λ l' h. ground (arith, frees-append b.1 (add_source ∷ [])))
    ]
listen_on-frees (given_up d w) a l h = (λ e. refl, λ l' e. ground arith)
listen_on-frees out_of_fuel a l h = absurd (h refl)

-- The code frees the server twice: when both allocations succeed and setup returns NULL after the
-- search has ended, the server has been freed two times. A setup that succeeds frees nothing.
pub westfield_xwayland_setup-frees :
    {World : Type 0} (os : Os World) (fuel : ℕ) (w : World) (a : SocketAnswers) (destroyed : Bool)
    → lock_display os fuel 1 w ≢ out_of_fuel
    → let r = westfield_xwayland_setup true true os fuel w a destroyed in
      (r.0 ≡ none → frees r.1 ≡ 2) × ((l : Launcher) → r.0 ≡ some l → frees r.1 ≡ 0)
unfolding westfield_xwayland_setup westfield_xserver_listen
westfield_xwayland_setup-frees os fuel w a destroyed h =
    let s = lock_display os fuel 1 w in
    let r = listen_on s a (fresh_launcher destroyed) in
    let f = listen_on-frees s a (fresh_launcher destroyed) h in
    elim (Option-cases r.0) [
      | inl e ↦ (
        λ q. ground (arith, frees-append r.1 (free_server ∷ free_launcher ∷ []), f.0 e),
        λ l q. absurd (ground arith),
      )
      | inr (l, e) ↦ (λ q. absurd (ground arith), λ l' q. ground (arith, f.1 l e))
    ]

-- After listen failed, setup frees the two structs.
setup_run :
    {World : Type 0} (os : Os World) (fuel : ℕ) (w : World) (a : SocketAnswers) (destroyed : Bool)
    → let q = listen_on (lock_display os fuel 1 w) a (fresh_launcher destroyed) in
      let r = westfield_xwayland_setup true true os fuel w a destroyed in
      (r.0 ≡ q.0) × (unlocked r.1 ≡ unlocked q.1) × ((fd : ℤ) → closes fd r.1 ≡ closes fd q.1)
unfolding westfield_xwayland_setup westfield_xserver_listen
setup_run os fuel w a destroyed =
    let q = listen_on (lock_display os fuel 1 w) a (fresh_launcher destroyed) in
    let ends = free_server ∷ free_launcher ∷ [] in
    elim (Option-cases q.0) [
      | inl e ↦ (
        ground arith,
        ground (arith, unlocked-frees q.1),
        λ fd. ground (arith, closes-append fd q.1 ends),
      )
      | inr (l, e) ↦ (ground arith, ground arith, λ fd. ground arith)
    ]

-- Setup where both allocations succeed. A launcher that it returns has a socket that was bound and
-- listens; its source is what the event loop returned; and the search has locked its display, the
-- first from 1 on whose lock file was absent or stale, and changed no other lock file. Where the search
-- has locked a display and setup returns NULL, the lock file is removed, and a socket is closed once.
-- Where it has, and socket, bind and listen succeed, setup returns a launcher for that display.
pub westfield_xwayland_setup-IsSetUp :
    {World : Type 0} (os : Os World) (present : World → ℕ → Bool) (laws : LockLaws os present)
    (fuel : ℕ) (w : World) (a : SocketAnswers) (destroyed : Bool)
    → SetsUp os present laws fuel w a (westfield_xwayland_setup true true os fuel w a destroyed)
westfield_xwayland_setup-IsSetUp os present laws fuel w a destroyed =
    let f = fresh_launcher destroyed in
    let s = lock_display os fuel 1 w in
    let (same, locks, closed) = setup_run os fuel w a destroyed in
    record {
      made = λ l h.
          let (d, w', fd, e, socket, bound, heard, eq, none_closed, none_unlocked) =
            listen_on-made s a f l (sym same ∙ h) in
          rw eq (
            record {
              listening = record { loop = refl };
              pid = refl;
              socket = socket;
              bound = bound;
              heard = heard;
              source = refl;
              world = w';
              locks = lock_display-Locks os present laws fuel 1 d w w' e;
            },
            closed fd ∙ none_closed,
            locks ∙ none_unlocked,
          );
      undone = λ d w' e h.
          let failed : (listen_on (locked d w') a f).0 ≡ none = rw (← e) (sym same ∙ h) in
          let (lock, socket) = listen_on-undone d w' a f failed in
          (locks ∙ rw e lock, λ fd g. closed fd ∙ rw e (socket fd g));
      works = λ d w' fd e g b c.
          let l : Launcher = record f {
            display = d;
            unix_fd = fd;
            source = a.watched;
            loop = true;
          } in
          (l, same ∙ rw e (listen_on-works d w' a f fd g b c), refl);
    }

removals-append : (xs ys : List Action) → removals (xs ++ ys) ≡ removals xs + removals ys
removals-append [] ys = omega arith
removals-append (remove_source ∷ xs) ys = omega (arith, removals-append xs ys)
removals-append (_ ∷ xs) ys = removals-append xs ys

fork-removals :
    (sv wm ends : ℤ × ℤ) (forked : Option ℕ) (l : Launcher)
    → removals (fork_xserver sv wm ends forked l).2 ≡ 0
unfolding fork_xserver
fork-removals sv wm ends none l = refl
fork-removals sv wm ends (some pid) l = refl

spawn-removals : (a : SpawnAnswers) (l : Launcher) → removals (spawn_xserver a l).2 ≡ 0
unfolding spawn_xserver
spawn-removals a l = elim (Option-cases a.wl_pair) [
  | inl e ↦ rw (e, spawn_xserver) refl
  | inr (sv, e) ↦ elim (Option-cases a.wm_pair) [
    | inl f ↦ rw (e, f, spawn_xserver) refl
    | inr (wm, f) ↦ elim (Option-cases a.display_pipe) [
      | inl g ↦ rw (e, f, g, spawn_xserver) refl
      | inr (ends, g) ↦ elim (Bool-cases a.cloexec_set) [
        | inr c ↦ rw (e, f, g, c, spawn_xserver) refl
        | inl c ↦ rw (e, f, g, c, spawn_xserver) (fork-removals sv wm ends a.fork l)
      ]
    ]
  ]
]

-- A teardown after a failed fork.
teardown-forked :
    (l : Launcher)
    → l.pid ≡ minus_one
    → l.loop ≡ true
    → let xs = westfield_xwayland_teardown l in
      (removals xs ≡ 0) × (closes l.unix_fd xs ≡ 1) × (frees xs ≡ 1)
unfolding westfield_xwayland_teardown westfield_xserver_shutdown
teardown-forked l p h = elim (Bool-cases l.destroyed_func) [
  | inl d ↦ (ground arith, ground (arith, eq_ℤ-refl l.unix_fd), ground arith)
  | inr d ↦ (ground arith, ground (arith, eq_ℤ-refl l.unix_fd), ground arith)
]

-- A failed fork leaves the event loop on a closed socket: a launcher that listens and is torn down
-- after it has closed its socket once and freed the server once, while the event loop watches the
-- socket still and was never told to leave it. No descriptor that the spawn got equals the socket.
pub teardown-keeps_source :
    (l : Launcher) (a : SpawnAnswers)
    → IsListening l
    → l.source ≡ true
    → Avoids l.unix_fd a
    → (spawn_xserver a l).0 ≡ minus_one
    → let r = westfield_xserver_handle_event a l in
      let xs = r.1 ++ westfield_xwayland_teardown r.0 in
      (r.0.source ≡ true) × (removals xs ≡ 0) × (closes l.unix_fd xs ≡ 1) × (frees xs ≡ 1)
unfolding westfield_xserver_handle_event
teardown-keeps_source l a listening s avoids h =
    let r = spawn_xserver a l in
    let q = spawn_xserver-Quiet a l avoids in
    let l' = record r.1 { pid = r.0 } in
    let ys = westfield_xwayland_teardown l' in
    let (kept, closed, freed) = teardown-forked l' h (q.loop ∙ listening.loop) in
    let run : westfield_xserver_handle_event a l ≡ (l', r.2) = ground arith in
    let shut = ap (λ (u : ℤ). closes u ys) (sym q.unix_fd) ∙ closed in
    rw run (
      q.source ∙ s,
      omega (arith, removals-append r.2 ys, spawn-removals a l, kept),
      omega (arith, closes-append l.unix_fd r.2 ys, q.closed, shut),
      omega (arith, frees-append r.2 ys, q.freed, freed),
    )
