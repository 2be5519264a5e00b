-- ===== src/Xwayland/Server.antt =====
-- The life of the X server: shutdown, spawn, the connection that starts it, its exit, setup and
-- teardown of westfield-xwayland.c.
use westfield.Prelude.{
  ℕ, suc, ℤ, pos, minus_one, is_minus_one, is_nonneg, eq_ℤ, Bool, true, false, ◌&&◌, Option, none,
  some, List, [], ◌∷◌, ◌++◌, if◌then◌else◌,
}
use westfield.Xwayland.Display.{Search, locked, given_up, out_of_fuel, lock_display}
use westfield.Xwayland.Os.{Os}

-- What the functions do outside their own state, in order.
pub data Action : Type 0 where
  unlink_lock unlink_socket : ℕ → Action
  add_source remove_source : Action
  close_fd : ℤ → Action
  create_client : ℤ → Action
  call_starting : ℤ → ℤ → Action
  call_destroyed : Action
  free_server free_launcher : Action

-- struct westfield_xserver and struct westfield_xwayland. `source` says whether the event loop
-- watches the socket; a `remove_source` where it does not is a call with the pointer as it stands, which
-- is NULL if wl_event_loop_add_fd returned NULL. `loop` and `destroyed_func` say whether the pointers
-- are set, and `process` is the pid that is watched.
pub record Launcher : Type 0 where
  pub display : ℕ
  pub unix_fd : ℤ
  pub pid : ℤ
  pub source : Bool
  pub loop : Bool
  pub starting_func : Bool
  pub destroyed_func : Bool
  pub wm_fd : ℤ
  pub display_fd : ℤ
  pub process : Option ℕ

abbrev pub call_if : Bool → List Action
call_if true = call_destroyed ∷ []
call_if false = []

unfoldable pub westfield_xserver_shutdown : Launcher → Launcher × List Action
westfield_xserver_shutdown l =
    let removed = eq_ℤ l.pid (pos 0) in
    (
      record l {
        source = if removed then false else l.source;
        loop = false;
        destroyed_func = false;
      },
      unlink_lock l.display
          ∷ unlink_socket l.display
          ∷ ((if removed then remove_source ∷ [] else [])
              ++ close_fd l.unix_fd ∷ call_if l.destroyed_func),
    )

-- What socketpair, pipe, fcntl and fork answer to spawn_xserver in the parent; the two ends of a
-- pair, unless it cannot be made, and the pid, unless fork fails.
pub record SpawnAnswers : Type 0 where
  pub wl_pair : Option (ℤ × ℤ)
  pub wm_pair : Option (ℤ × ℤ)
  pub display_pipe : Option (ℤ × ℤ)
  pub cloexec_set : Bool
  pub fork : Option ℕ

-- From wl_client_create on. The pid of a child is not 0.
unfoldable pub fork_xserver :
    ℤ × ℤ → ℤ × ℤ → ℤ × ℤ → Option ℕ → Launcher → ℤ × Launcher × List Action
fork_xserver sv wm display_pipe forked l =
    let started = record l { display_fd = display_pipe.0; wm_fd = wm.0 } in
    let begun = create_client sv.0 ∷ call_starting wm.0 display_pipe.0 ∷ [] in
    elim forked [
      | none ↦ (minus_one, started, begun)
      | some pid ↦ (
        pos (suc pid),
        record started { process = some (suc pid) },
        begun ++ close_fd sv.1 ∷ close_fd wm.1 ∷ close_fd display_pipe.1 ∷ [],
      )
    ]

-- The pid that is returned, which is 1 where something cannot be made.
unfoldable pub spawn_xserver : SpawnAnswers → Launcher → ℤ × Launcher × List Action
unfolding fork_xserver
spawn_xserver a l = elim a.wl_pair [
  | none ↦ (pos 1, l, [])
  | some sv ↦ elim a.wm_pair [
    | none ↦ (pos 1, l, [])
    | some wm ↦ elim a.display_pipe [
      | none ↦ (pos 1, l, [])
      | some ends ↦ if a.cloexec_set then fork_xserver sv wm ends a.fork l else (pos 1, l, [])
    ]
  ]
]

unfoldable pub westfield_xserver_handle_event : SpawnAnswers → Launcher → Launcher × List Action
westfield_xserver_handle_event a l =
    let (pid, l', actions) = spawn_xserver a l in
    if is_minus_one pid
    then (record l' { pid = pid }, actions)
    else (record l' { pid = pid; source = false }, actions ++ remove_source ∷ [])

-- What the child makes of its descriptors and passes to Xwayland, if no dup fails: `dup fd` is
-- negative where it fails.
pub record ChildArgs : Type 0 where
  pub wayland_socket : ℤ
  pub listen : ℤ
  pub displayfd : ℤ
  pub wm : ℤ

unfoldable pub exec_args : (ℤ → ℤ) → ℤ → ℤ → ℤ → ℤ → Option ChildArgs
exec_args dup sv unix_fd wm display_fd =
    if is_nonneg (dup sv) && is_nonneg (dup unix_fd) && is_nonneg (dup wm)
    then some (record {
      wayland_socket = dup sv;
      listen = dup unix_fd;
      displayfd = display_fd;
      wm = dup wm;
    })
    else none

-- `watched` says whether wl_event_loop_add_fd returns a source, which is not tested.
unfoldable pub westfield_xserver_exited : Bool → Launcher → Launcher × List Action
unfolding westfield_xserver_shutdown
westfield_xserver_exited watched l =
    let watching = record l { pid = pos 0; source = watched } in
    let (stopped, actions) = westfield_xserver_shutdown watching in
    if l.starting_func
    then (stopped, add_source ∷ actions)
    else (record watching { destroyed_func = false }, add_source ∷ call_if l.destroyed_func)

-- The launcher and its server are freed.
unfoldable pub westfield_xwayland_teardown : Launcher → List Action
unfolding westfield_xserver_shutdown
westfield_xwayland_teardown l =
    (if l.loop then (westfield_xserver_shutdown l).1 else []) ++ free_server ∷ free_launcher ∷ []

-- What socket, bind and listen answer, and whether wl_event_loop_add_fd returns a source, which is not
-- tested.
pub record SocketAnswers : Type 0 where
  pub socket : Option ℤ
  pub bound : Bool
  pub listening : Bool
  pub watched : Bool

-- The socket, unless it cannot be had.
unfoldable pub bind_to_unix_socket : SocketAnswers → ℕ → Option ℤ × List Action
bind_to_unix_socket a display = elim a.socket [
  | none ↦ (none, [])
  | some fd ↦
      if a.bound
      then if a.listening
        then (some fd, unlink_socket display ∷ [])
        else (none, unlink_socket display ∷ unlink_socket display ∷ close_fd fd ∷ [])
      else (none, unlink_socket display ∷ close_fd fd ∷ [])
]

-- westfield_xserver_listen after the search for a display: the launcher as it listens, unless the
-- server has been freed.
unfoldable pub listen_on :
    {World : Type 0} → Search World → SocketAnswers → Launcher → Option Launcher × List Action
unfolding bind_to_unix_socket
listen_on out_of_fuel a l = (none, [])
listen_on (given_up display w) a l = (none, free_server ∷ [])
listen_on (locked display w) a l =
    let (socket, actions) = bind_to_unix_socket a display in
    elim socket [
      | none ↦ (none, actions ++ unlink_lock display ∷ free_server ∷ [])
      | some fd ↦ (
        some (record l { display = display; unix_fd = fd; source = a.watched; loop = true }),
        actions ++ add_source ∷ [],
      )
    ]

-- The search starts at display 1.
unfoldable pub westfield_xserver_listen :
    {World : Type 0}
    → Os World
    → ℕ
    → World
    → SocketAnswers
    → Launcher
    → Option Launcher × List Action
unfolding listen_on
westfield_xserver_listen os fuel w a l = listen_on (lock_display os fuel 1 w) a l

-- calloc, and the two callbacks
abbrev pub fresh_launcher : Bool → Launcher
fresh_launcher destroyed_func = record {
  display = 0;
  unix_fd = pos 0;
  pid = pos 0;
  source = false;
  loop = false;
  starting_func = true;
  destroyed_func = destroyed_func;
  wm_fd = pos 0;
  display_fd = pos 0;
  process = none;
}

-- The two Booleans say whether calloc returns memory for the server and for the launcher.
unfoldable pub westfield_xwayland_setup :
    {World : Type 0}
    → Bool
    → Bool
    → Os World
    → ℕ
    → World
    → SocketAnswers
    → Bool
    → Option Launcher × List Action
westfield_xwayland_setup got_server got_launcher os fuel w a destroyed_func =
    let (listening, actions) =
      westfield_xserver_listen os fuel w a (fresh_launcher destroyed_func) in
    if got_server
    then if got_launcher
      then elim listening [
        | some l ↦ (some l, actions)
        | none ↦ (none, actions ++ free_server ∷ free_launcher ∷ [])
      ]
      else (none, free_server ∷ [])
    else (none, [])
