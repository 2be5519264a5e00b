-- ===== src/Tests/Node.antt =====
-- A client whose callback for messages is set twice, and an Xwayland that starts and exits.
use westfield.Node.Clients.{DisplayListener, wire_message, client_destroyed}
use westfield.Node.Life.{created, destroyed, client_life-IsSafe}
use westfield.Node.References.{
  Alive, alive_after, IsSafe, ClientEvent, sets, message, resource, client_life, is_among,
  overwritten,
}
use westfield.Node.Clients.{references}
use westfield.Node.Callbacks.{use_struct}
use westfield.Node.Uses.{Run-Uses}
use westfield.Node.Xwayland.{XwaylandCallbacks, react}
use westfield.Prelude.{
  ℕ, ◌+◌, ◌≡◌, refl, pos, true, false, none, some, List, [], ◌∷◌, ◌++◌, ◌==◌, if◌then◌else◌, arith,
}
use westfield.Xwayland.Events.{Run, begin, then_step, connection, teardown}
use westfield.Xwayland.Server.{
  Launcher, SpawnAnswers, spawn_xserver, westfield_xserver_handle_event,
  westfield_xwayland_teardown,
}

abbrev display : DisplayListener
display = record { client_creation_cb = 0; global_created_cb = 1; global_destroyed_cb = 2 }

abbrev display_alive : Alive
display_alive k = if k == 0 then 1 else 0

abbrev events : List ClientEvent
events =
    sets wire_message
    ∷ message (1 ∷ 2 ∷ []) 3 0 5
    ∷ sets wire_message
    ∷ sets client_destroyed
    ∷ resource (1 ∷ []) 4
    ∷ []

client_life-IsSafe_example :
    let es = client_life display none 3 events in
    let l = (destroyed display 3 events).listener in
    IsSafe display_alive es
    × ((cb : ℕ)
        → l.destroy_cb ≡ some cb
        → (k : ℕ)
        → alive_after display_alive es k
          ≡ overwritten events (created display 3) k + display_alive k)
    × (l.destroy_cb ≡ none
        → (k : ℕ)
        → alive_after display_alive es k
          ≡ is_among k (references l)
            + (overwritten events (created display 3) k + display_alive k))
client_life-IsSafe_example = client_life-IsSafe display 3 events display_alive (omega arith)

abbrev launcher : Launcher
launcher = record {
  display = 1;
  unix_fd = pos 7;
  pid = pos 0;
  source = true;
  loop = true;
  starting_func = true;
  destroyed_func = true;
  wm_fd = pos 0;
  display_fd = pos 0;
  process = none;
}

abbrev forks : SpawnAnswers
forks = record {
  wl_pair = some (pos 20, pos 21);
  wm_pair = some (pos 22, pos 23);
  display_pipe = some (pos 24, pos 25);
  cloexec_set = true;
  fork = some 99;
}

abbrev spawned : Launcher
spawned = record launcher {
  pid = pos 100;
  source = false;
  wm_fd = pos 22;
  display_fd = pos 24;
  process = some 100;
}

abbrev callbacks : XwaylandCallbacks
callbacks = record { starting_cb = 10; destroyed_cb = 11 }

whole_life :
    Run launcher
      (([] ++ (westfield_xserver_handle_event forks launcher).1)
        ++ westfield_xwayland_teardown spawned)
      none
unfolding westfield_xserver_handle_event spawn_xserver
whole_life =
    then_step
      (then_step begin (connection launcher forks refl ((refl, refl), (refl, refl), (refl, refl))))
      (teardown spawned)

Run-Uses_example :
    use_struct false (
      react callbacks (
        ([] ++ (westfield_xserver_handle_event forks launcher).1)
        ++ westfield_xwayland_teardown spawned))
    ≡ some true
Run-Uses_example =
    Run-Uses callbacks
      (record { listening = record { loop = refl }; starting = refl; destroyed = refl }) whole_life
