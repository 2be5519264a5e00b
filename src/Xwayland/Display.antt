-- ===== src/Xwayland/Display.antt =====
-- The search of westfield_xserver_listen for a display (westfield-xwayland.c), its `goto retry` on
-- fuel.
use westfield.Prelude.{ℕ, zero, suc, ◌+◌, none, some}
use westfield.Xwayland.Lockfile.{create_lockfile}
use westfield.Xwayland.Os.{eexist, eagain, other_error, Os}

-- The display whose lock file was created, or the one at which the search was given up.
pub data Search (World : Type 0) : Type 0 where
  locked : ℕ → World → Search World
  given_up : ℕ → World → Search World
  out_of_fuel : Search World

module _ {World : Type 0} (os : Os World) where
  unfoldable pub lock_display : ℕ → ℕ → World → Search World
  unfolding create_lockfile
  lock_display zero display w = out_of_fuel
  lock_display (suc fuel) display w =
      let r = create_lockfile os display w in
      elim r.errno [
        | none ↦ locked display r.world
        | some eagain ↦ lock_display fuel display r.world
        | some eexist ↦ lock_display fuel (display + 1) r.world
        | some other_error ↦ given_up display r.world
      ]
