-- ===== src/Node/Xwayland.antt =====
-- The callbacks of Xwayland in westfield-addon.c: setupXWayland, teardownXWayland,
-- westfield_xserver_starting and westfield_xserver_destroyed, over the launcher of
-- westfield-xwayland.c. The struct with the two references is the user data of the launcher.
use westfield.Node.Clients.{NodeEffect, create_reference}
use westfield.Prelude.{ℕ, ◌+◌, ℤ, Bool, true, Option, List, [], ◌∷◌, ◌++◌}
use westfield.Xwayland.Os.{Os}
use westfield.Xwayland.Server.{
  Action, call_starting, call_destroyed, Launcher, SocketAnswers, westfield_xwayland_setup,
}

-- struct weston_xwayland_callbacks
pub record XwaylandCallbacks : Type 0 where
  pub starting_cb : ℕ
  pub destroyed_cb : ℕ

-- What is done with the struct: a function that it refers to is called with the descriptors, or it
-- is freed.
pub data CallbackEffect : Type 0 where
  call_js : ℕ → List ℤ → CallbackEffect
  free_callbacks : CallbackEffect

abbrev pub westfield_xserver_starting : XwaylandCallbacks → ℤ → ℤ → List CallbackEffect
westfield_xserver_starting user_data wm_fd display_fd =
    call_js user_data.starting_cb (wm_fd ∷ display_fd ∷ []) ∷ []

abbrev pub westfield_xserver_destroyed : XwaylandCallbacks → List CallbackEffect
westfield_xserver_destroyed user_data = call_js user_data.destroyed_cb [] ∷ free_callbacks ∷ []

-- What the actions of the launcher come to here: only its two callbacks reach the addon.
unfoldable pub react : XwaylandCallbacks → List Action → List CallbackEffect
react user_data [] = []
react user_data (call_starting wm_fd display_fd ∷ xs) =
    westfield_xserver_starting user_data wm_fd display_fd ++ react user_data xs
react user_data (call_destroyed ∷ xs) = westfield_xserver_destroyed user_data ++ react user_data xs
react user_data (_ ∷ xs) = react user_data xs

-- The launcher, unless undefined is returned, its actions, the struct, and the references made from
-- number `next` on.
pub record SetUp : Type 0 where
  pub launcher : Option Launcher
  pub actions : List Action
  pub callbacks : XwaylandCallbacks
  pub references : List NodeEffect

unfoldable pub setup_xwayland :
    {World : Type 0} → Bool → Bool → Os World → ℕ → World → SocketAnswers → ℕ → SetUp
setup_xwayland got_server got_launcher os fuel w a next =
    let (launcher, actions) = westfield_xwayland_setup got_server got_launcher os fuel w a true in
    record {
      launcher = launcher;
      actions = actions;
      callbacks = record { starting_cb = next; destroyed_cb = next + 1 };
      references = create_reference next ∷ create_reference (next + 1) ∷ [];
    }
