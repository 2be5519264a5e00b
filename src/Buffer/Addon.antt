-- ===== src/Buffer/Addon.antt =====
-- Sets of addons: addon.c. An owner and an interface are addresses, NULL being 0, and an addon is
-- known by its own address; the list has its newest entry first.
use westfield.Drm.Intersection.{Checked, returned, aborted}
use westfield.Prelude.{
  ℕ, Bool, false, ◌&&◌, ◌||◌, Option, none, some, List, [], ◌∷◌, ◌==◌, if◌then◌else◌,
}

pub record Addon : Type 0 where
  pub address : ℕ
  pub impl : ℕ
  pub owner : ℕ

abbrev pub addon_set_init : List Addon
addon_set_init = []

-- The loop of addon_init: whether an addon has the given owner and interface.
unfoldable pub has_addon : List Addon → ℕ → ℕ → Bool
has_addon [] owner impl = false
has_addon (a ∷ addons) owner impl =
    (a.owner == owner && a.impl == impl) || has_addon addons owner impl

-- The loop looks for the fields of the new addon, which the memset has cleared.
unfoldable pub addon_init : ℕ → List Addon → ℕ → ℕ → Checked (List Addon)
addon_init address addons owner impl =
    if owner == 0 || impl == 0
    then aborted
    else if has_addon addons 0 0
    then aborted
    else returned (record { address = address; impl = impl; owner = owner } ∷ addons)

-- wl_list_remove of the entry with this address
unfoldable pub addon_finish : ℕ → List Addon → List Addon
addon_finish address [] = []
addon_finish address (a ∷ addons) =
    let rest = addon_finish address addons in if a.address == address then addons else a ∷ rest

unfoldable pub addon_find : List Addon → ℕ → ℕ → Option Addon
addon_find [] owner impl = none
addon_find (a ∷ addons) owner impl =
    let rest = addon_find addons owner impl in
    if a.owner == owner && a.impl == impl then some a else rest
