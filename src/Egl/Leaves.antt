-- ===== src/Egl/Leaves.antt =====
-- What the set-up of a renderer in westfield-egl.c leaves, once its descriptor is open.
use westfield.Drm.Intersection.{returned, aborted}
use westfield.Egl.Balance.{
  Undone, Leaves, end_display-Undone, Undone-nothing, after_device-Leaves, after_gbm-Leaves,
}
use westfield.Egl.Device.{get_egl_device_from_drm_fd, open_render_node}
use westfield.Egl.Display.{
  query_devices, query_device_string, platform_device, platform_gbm, EglState, EglAnswers,
  fresh_egl, egl_create, client_extensions,
}
use westfield.Egl.Setup.{
  open_fd, close_fd, SetupAnswers, end_display, egl_error, egl_init, after_device, after_gbm,
  create_on_gbm, choose_platform, westfield_egl_egl_create_with_drm_fd,
}
use westfield.Egl.Settled.{egl_init-Inits}
use westfield.Feedback.Decode.{Checked-cases}
use westfield.Prelude.{
  ℕ, ◌≡◌, refl, inl, inr, ℤ, is_nonneg, Bool, Option, none, some, List, [], ◌∷◌, elem, Bool-cases,
  Option-cases, arith,
}

-- A state with no GBM device keeps none through egl_create.
egl_create-gbm :
    (answers : EglAnswers) (s s' : EglState)
    → egl_create answers s ≡ returned (some s')
    → s'.gbm_device ≡ s.gbm_device
unfolding egl_create
egl_create-gbm answers s s' h = elim (Option-cases answers.client_exts) [
  | inl e ↦ absurd (ground arith)
  | inr (exts, e) ↦ let made : s' ≡ client_extensions answers exts s = ground arith in rw made refl
]

error-Leaves : (s : EglState) (fate : List Bool) → Leaves (egl_error s [] fate)
error-Leaves s fate = record {
  failed = λ h. end_display-Undone s.display;
  made = λ h. absurd (ground arith);
}

-- A descriptor that was opened and closed again.
opened-Undone : (fd : ℤ) (o : Option ℕ) → Undone (open_fd fd ∷ close_fd fd ∷ end_display o)
unfolding elem
opened-Undone fd none = record {
  fds = λ z. refl;
  gbms = refl;
  displays = λ d h. absurd (ground arith);
}
opened-Undone fd (some d) = record {
  fds = λ z. refl;
  gbms = refl;
  displays = λ x h. absurd (ground arith);
}

module _ (mod_invalid mod_linear : ℕ) (answers : SetupAnswers) where
  create_on_gbm-Leaves :
      (s : EglState) (drm_fd : ℤ) (fate : List Bool)
      → Leaves (create_on_gbm mod_invalid mod_linear answers s drm_fd fate)
  unfolding create_on_gbm
  create_on_gbm-Leaves s drm_fd fate =
      let gbm_fd =
        open_render_node answers.render_name answers.primary_name answers.open_node drm_fd in
      let call = create_on_gbm mod_invalid mod_linear answers s drm_fd fate in
      elim (Bool-cases s.has_platform_gbm) [
        | inr p ↦
            let run : call ≡ egl_error s [] fate = ground arith in rw run (error-Leaves s fate)
        | inl p ↦ elim (Bool-cases (is_nonneg gbm_fd)) [
          | inr n ↦
              let run : call ≡ egl_error s [] fate = ground arith in rw run (error-Leaves s fate)
          | inl n ↦ elim (Option-cases (answers.gbm_create_device gbm_fd)) [
            | inl e ↦
                let run : call ≡ egl_error s (open_fd gbm_fd ∷ close_fd gbm_fd ∷ []) fate =
                  ground arith in
                rw run (record {
                  failed = λ h. opened-Undone gbm_fd s.display;
                  made = λ h. absurd (ground arith);
                })
            | inr (g, e) ↦
                let with : EglState = record s { gbm_device = some g } in
                let r = egl_init mod_invalid mod_linear answers.egl platform_gbm g with fate in
                let inits =
                  egl_init-Inits mod_invalid mod_linear answers.egl platform_gbm g with fate in
                let run : call ≡ after_gbm gbm_fd g r = ground arith in
                rw run (after_gbm-Leaves with r inits gbm_fd g refl)
          ]
        ]
      ]

  choose_platform-Leaves :
      (s : EglState) (drm_fd : ℤ) (fate : List Bool)
      → s.gbm_device ≡ none
      → Leaves (choose_platform mod_invalid mod_linear answers s drm_fd fate)
  unfolding choose_platform
  choose_platform-Leaves s drm_fd fate none_yet =
      let found =
        get_egl_device_from_drm_fd answers.devices (s.loaded query_devices)
          (s.loaded query_device_string) drm_fd fate in
      let call = choose_platform mod_invalid mod_linear answers s drm_fd fate in
      elim (Bool-cases s.has_platform_device) [
        | inr p ↦
            let run : call ≡ create_on_gbm mod_invalid mod_linear answers s drm_fd fate =
              ground arith in
            rw run (create_on_gbm-Leaves s drm_fd fate)
        | inl p ↦ elim (Checked-cases found.device) [
          | inl e ↦
              let run : call.ok ≡ aborted = ground arith in
              record { failed = λ h. absurd (ground arith); made = λ h. absurd (ground arith) }
          | inr (inl e) ↦
              let run : call ≡ create_on_gbm mod_invalid mod_linear answers s drm_fd found.fate =
                ground arith in
              rw run (create_on_gbm-Leaves s drm_fd found.fate)
          | inr (inr (d, e)) ↦
              let r = egl_init mod_invalid mod_linear answers.egl platform_device d s found.fate in
              let inits =
                egl_init-Inits mod_invalid mod_linear answers.egl platform_device d s found.fate in
              let run : call ≡ after_device r = ground arith in
              rw run (after_device-Leaves s r inits none_yet)
        ]
      ]

  pub create_with_drm_fd-Leaves :
      (drm_fd : ℤ) (fate : List Bool)
      → Leaves (
          westfield_egl_egl_create_with_drm_fd mod_invalid mod_linear answers fresh_egl drm_fd fate)
  unfolding westfield_egl_egl_create_with_drm_fd
  create_with_drm_fd-Leaves drm_fd fate = elim (Checked-cases (egl_create answers.egl fresh_egl)) [
    | inl e ↦
        rw (e, westfield_egl_egl_create_with_drm_fd)
          (record { failed = λ h. absurd (ground arith); made = λ h. absurd (ground arith) })
    | inr (inl e) ↦
        rw (e, westfield_egl_egl_create_with_drm_fd)
          (record { failed = λ h. Undone-nothing; made = λ h. absurd (ground arith) })
    | inr (inr (s, e)) ↦
        rw (e, westfield_egl_egl_create_with_drm_fd)
          (choose_platform-Leaves s drm_fd fate (egl_create-gbm answers.egl fresh_egl s e))
  ]
