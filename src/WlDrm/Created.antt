-- ===== src/WlDrm/Created.antt =====
-- What wlr_drm_create of wlr_drm.c returns and keeps.
use westfield.Drm.FormatSet.{DrmFormatSet, empty_set, drm_format_set_copy}
use westfield.Drm.Intersection.{Checked, returned, aborted}
use westfield.Drm.Shape.{drm_format_set_copy-Copied}
use westfield.Feedback.Default.{DrmDevice, node_name}
use westfield.Prelude.{
  ℕ, ◌+◌, ◌≡◌, refl, ap, ◌⊎◌, inl, inr, ℤ, is_nonneg, Bool, true, false, Option, none, some, List,
  [], ◌∷◌, ◌++◌, Fate, alloc, if◌then◌else◌, Bool-cases, Option-cases, arith,
}
use westfield.WlDrm.Global.{
  WlDrm, Held, drm_device, name_string, drm_struct, format_set, wl_global, drm_destroy, DrmCreated,
  finish_drm, make_drm, wlr_drm_create,
}

-- How often something is in a list.
abbrev same_held : Held → Held → Bool
same_held drm_device drm_device = true
same_held name_string name_string = true
same_held drm_struct drm_struct = true
same_held format_set format_set = true
same_held wl_global wl_global = true
same_held _ _ = false

abbrev pub times : Held → List Held → ℕ
times h [] = 0
times h (k ∷ ks) = (if same_held h k then 1 else 0) + times h ks

times-back :
    (h : Held)
    → times h (drm_device ∷ format_set ∷ name_string ∷ wl_global ∷ drm_struct ∷ [])
      ≡ times h (drm_device ∷ name_string ∷ drm_struct ∷ format_set ∷ wl_global ∷ [])
times-back drm_device = refl
times-back name_string = refl
times-back drm_struct = refl
times-back format_set = refl
times-back wl_global = refl

times-failed :
    (h : Held)
    → times h (drm_device ∷ format_set ∷ name_string ∷ drm_struct ∷ [])
      ≡ times h (drm_device ∷ name_string ∷ drm_struct ∷ format_set ∷ [])
times-failed drm_device = refl
times-failed name_string = refl
times-failed drm_struct = refl
times-failed format_set = refl
times-failed wl_global = refl

-- What wlr_drm_create returns for a renderer's formats.
pub record Makes (get_device : ℤ → Option DrmDevice) (drm_fd : ℤ) (formats : DrmFormatSet)
    (r : DrmCreated) : Type 0 where
  pub refused : r.drm ≡ returned none → (h : Held) → times h r.given ≡ times h r.taken
  pub made :
      (drm : WlDrm)
      → r.drm ≡ returned (some drm)
      → (drm.formats.formats ≡ formats.formats)
        × ((dev : DrmDevice) × (get_device drm_fd ≡ some dev)
            × (node_name dev ≡ returned drm.node_name))
        × ((h : Held) → times h (r.given ++ drm_destroy drm) ≡ times h r.taken)

-- What holds of a wl_drm for formats and a name.
abbrev Settled : DrmFormatSet → List ℕ → DrmCreated → Type 0
Settled formats name r =
    (r.drm ≡ returned none → (h : Held) → times h r.given ≡ times h r.taken)
    × ((drm : WlDrm)
        → r.drm ≡ returned (some drm)
        → (drm.formats.formats ≡ formats.formats)
          × (drm.node_name ≡ name)
          × ((h : Held) → times h (r.given ++ drm_destroy drm) ≡ times h r.taken))

finish_drm-Settled :
    (global copied : Bool) (name : List ℕ) (formats made : DrmFormatSet)
    → (copied ≡ true → made.formats ≡ formats.formats)
    → Settled formats name (finish_drm global name (copied, made))
unfolding finish_drm drm_destroy
finish_drm-Settled true true name formats made same = (
  λ h. absurd (ground arith),
  λ drm h.
      let new : WlDrm = record { node_name = name; formats = made } in
      let eq : drm ≡ new = ground arith in rw eq (same refl, refl, times-back),
)
finish_drm-Settled false true name formats made same =
    (λ h. times-failed, λ drm h. absurd (ground arith))
finish_drm-Settled true false name formats made same = (λ h k. refl, λ drm h. absurd (ground arith))
finish_drm-Settled false false name formats made same =
    (λ h k. refl, λ drm h. absurd (ground arith))

copy-cases :
    (c : Checked (Bool × DrmFormatSet))
    → (c ≡ aborted) ⊎ ((b : Bool) × (s : DrmFormatSet) × (c ≡ returned (b, s)))
copy-cases aborted = inl refl
copy-cases (returned (b, s)) = inr (b, s, refl)

make_drm-lem :
    (global : Bool) (name : List ℕ) (formats : DrmFormatSet) (fate : Fate)
    → Settled formats name (make_drm global name formats fate)
unfolding make_drm
make_drm-lem global name formats fate =
    let copied = drm_format_set_copy empty_set formats (alloc fate).1 in
    let law = (drm_format_set_copy-Copied empty_set formats (alloc fate).1).0 in
    elim (Bool-cases (alloc fate).0) [
      | inr g ↦ (λ h k. ground arith, λ drm h. absurd (ground arith))
      | inl g ↦ elim (copy-cases copied.0) [
        | inl e ↦ (λ h. absurd (ground arith), λ drm h. absurd (ground arith))
        | inr (ok, made, e) ↦
            let run : make_drm global name formats fate ≡ finish_drm global name (ok, made) =
              rw (g, e, make_drm) refl in
            let same : ok ≡ true → made.formats ≡ formats.formats =
              λ t. ap (λ (s : DrmFormatSet). s.formats) (law.same made (rw (← t) e)) in
            rw run (finish_drm-Settled global ok name formats made same)
      ]
    ]

name-cases : (x : Checked (List ℕ)) → (x ≡ aborted) ⊎ ((a : List ℕ) × (x ≡ returned a))
name-cases aborted = inl refl
name-cases (returned a) = inr (a, refl)

pub wlr_drm_create-Makes :
    (get_device : ℤ → Option DrmDevice) (global : Bool) (drm_fd : ℤ) (formats : DrmFormatSet)
    (fate : Fate)
    → Makes get_device drm_fd formats (wlr_drm_create get_device global drm_fd formats fate)
unfolding wlr_drm_create
wlr_drm_create-Makes get_device global drm_fd formats fate = elim (Bool-cases (is_nonneg drm_fd)) [
  | inr n ↦ record { refused = λ h k. ground arith; made = λ drm h. absurd (ground arith) }
  | inl n ↦ elim (Option-cases (get_device drm_fd)) [
    | inl e ↦ record { refused = λ h k. ground arith; made = λ drm h. absurd (ground arith) }
    | inr (dev, e) ↦ elim (name-cases (node_name dev)) [
      | inl d ↦ record {
        refused = λ h. absurd (ground arith);
        made = λ drm h. absurd (ground arith);
      }
      | inr (name, d) ↦ elim (Bool-cases (alloc fate).0) [
        | inr g ↦ record { refused = λ h k. ground arith; made = λ drm h. absurd (ground arith) }
        | inl g ↦
            let run : wlr_drm_create get_device global drm_fd formats fate
                ≡ make_drm global name formats (alloc fate).1 =
              ground arith in
            let (refused, made) = make_drm-lem global name formats (alloc fate).1 in
            rw run (record {
              refused = refused;
              made = λ drm h.
                  let (same, named, back) = made drm h in (same, (dev, e, rw named d), back);
            })
      ]
    ]
  ]
]
