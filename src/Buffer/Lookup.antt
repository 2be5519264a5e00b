-- ===== src/Buffer/Lookup.antt =====
-- What addon_find sees of addon_init and addon_finish (addon.c).
use westfield.Buffer.Addon.{Addon, has_addon, addon_init, addon_finish, addon_find}
use westfield.Drm.Intersection.{returned}
use westfield.Prelude.{
  ℕ, ◌≡◌, ◌≢◌, ◌<◌, refl, ◌⊎◌, inl, inr, false, ◌||◌, some, List, [], ◌∷◌, All, ◌==◌, Bool-cases,
  arith,
}

-- Every addon has an owner and an interface.
abbrev pub AreOwned : List Addon → Type 0
AreOwned = All (λ a. (0 < a.owner) × (0 < a.impl))

has_addon-null : (addons : List Addon) → AreOwned addons → has_addon addons 0 0 ≡ false
unfolding has_addon
has_addon-null [] h = refl
has_addon-null (a ∷ addons) h = ground (arith, has_addon-null addons h.1)

-- addon_init with an owner and an interface always adds the addon, so that addon_find returns it for
-- them, and finds for others what it found before; the addons keep their owners. The code does so
-- even if the set has an addon with the same owner and interface, which its assertion means to
-- refuse.
pub addon_find-init :
    (address : ℕ) (addons : List Addon) (owner impl : ℕ)
    → AreOwned addons
    → 0 < owner
    → 0 < impl
    → (addons' : List Addon) × (addon_init address addons owner impl ≡ returned addons')
      × AreOwned addons'
      × (addon_find addons' owner impl
          ≡ some (record { address = address; impl = impl; owner = owner }))
      × ((o i : ℕ) → (o ≢ owner) ⊎ (i ≢ impl) → addon_find addons' o i ≡ addon_find addons o i)
unfolding addon_init addon_find
addon_find-init address addons owner impl h o i =
    let new : Addon = record { address = address; impl = impl; owner = owner } in
    let absent = has_addon-null addons h in
    (
      new ∷ addons,
      ground (arith, absent),
      ((o, i), h),
      ground arith,
      λ p q other. elim other [ inl n ↦ ground (arith, n) | inr n ↦ ground (arith, n) ],
    )

-- addon_finish of the newest addon undoes addon_init.
pub addon_finish-init :
    (address : ℕ) (addons addons' : List Addon) (owner impl : ℕ)
    → addon_init address addons owner impl ≡ returned addons'
    → addon_finish address addons' ≡ addons
unfolding addon_init addon_finish
addon_finish-init address addons addons' owner impl h =
    elim (Bool-cases (owner == 0 || impl == 0)) [
      | inl e ↦ absurd (ground arith)
      | inr e ↦ elim (Bool-cases (has_addon addons 0 0)) [
        | inl n ↦ absurd (ground arith)
        | inr n ↦
            let new : Addon = record { address = address; impl = impl; owner = owner } in
            let same : addons' ≡ new ∷ addons = ground arith in rw same (ground arith)
      ]
    ]
