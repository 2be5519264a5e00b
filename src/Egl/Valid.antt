-- ===== src/Egl/Valid.antt =====
-- The texture formats of a renderer that westfield_egl_new of westfield-egl.c returns.
use westfield.Drm.Intersection.{returned}
use westfield.Drm.Shape.{IsValid, empty_set-IsValid}
use westfield.Egl.Device.{get_egl_device_from_drm_fd, open_render_node}
use westfield.Egl.Display.{
  query_devices, query_device_string, platform_device, platform_gbm, EglState, fresh_egl,
  egl_create,
}
use westfield.Egl.Setup.{
  SetupAnswers, after_device, egl_init, create_on_gbm, choose_platform,
  westfield_egl_egl_create_with_drm_fd, westfield_egl_new,
}
use westfield.Egl.Settled.{ok-cases}
use westfield.Feedback.Decode.{Checked-cases}
use westfield.Prelude.{
  ℕ, ℤ, ◌≡◌, inl, inr, Bool, not, ◌&&◌, eq_ℤ, pos, some, List, alloc, is_nonneg, Bool-cases,
  Option-cases, arith,
}
use westfield.Egl.Kept.{
  HasValid, egl_create-formats, after_device-HasValid, after_gbm-HasValid, egl_init-HasValid,
}

module _ (mod_invalid mod_linear : ℕ) where
  create_on_gbm-HasValid :
      (answers : SetupAnswers) (s : EglState) (drm_fd : ℤ) (fate : List Bool)
      → HasValid s
      → HasValid (create_on_gbm mod_invalid mod_linear answers s drm_fd fate).state
  unfolding create_on_gbm
  create_on_gbm-HasValid answers s drm_fd fate v =
      let gbm_fd =
        open_render_node answers.render_name answers.primary_name answers.open_node drm_fd in
      elim (Bool-cases s.has_platform_gbm) [
        | inr p ↦ rw (p, create_on_gbm) v
        | inl p ↦ elim (Bool-cases (is_nonneg gbm_fd)) [
          | inr o ↦ rw (p, o, create_on_gbm) v
          | inl o ↦ elim (Option-cases (answers.gbm_create_device gbm_fd)) [
            | inl e ↦ rw (p, o, e, create_on_gbm) v
            | inr (g, e) ↦
                let held : EglState = record s { gbm_device = some g } in
                let r = egl_init mod_invalid mod_linear answers.egl platform_gbm g held fate in
                rw (p, o, e, create_on_gbm)
                  (after_gbm-HasValid gbm_fd g r (
                    egl_init-HasValid mod_invalid mod_linear answers.egl platform_gbm g held fate
                      v))
          ]
        ]
      ]

  choose_platform-HasValid :
      (answers : SetupAnswers) (s : EglState) (drm_fd : ℤ) (fate : List Bool)
      → HasValid s
      → HasValid (choose_platform mod_invalid mod_linear answers s drm_fd fate).state
  unfolding choose_platform
  choose_platform-HasValid answers s drm_fd fate v =
      let found =
        get_egl_device_from_drm_fd answers.devices (s.loaded query_devices)
          (s.loaded query_device_string) drm_fd fate in
      let call = choose_platform mod_invalid mod_linear answers s drm_fd fate in
      elim (Bool-cases s.has_platform_device) [
        | inr p ↦
            let run : call ≡ create_on_gbm mod_invalid mod_linear answers s drm_fd fate =
              ground arith in
            rw run (create_on_gbm-HasValid answers s drm_fd fate v)
        | inl p ↦ elim (Checked-cases found.device) [
          | inl e ↦ let run : call.state ≡ s = ground arith in rw run v
          | inr (inl e) ↦
              let run : call ≡ create_on_gbm mod_invalid mod_linear answers s drm_fd found.fate =
                ground arith in
              rw run (create_on_gbm-HasValid answers s drm_fd found.fate v)
          | inr (inr (d, e)) ↦
              let r = egl_init mod_invalid mod_linear answers.egl platform_device d s found.fate in
              let run : call ≡ after_device r = ground arith in
              rw run (
                after_device-HasValid r (
                  egl_init-HasValid mod_invalid mod_linear answers.egl platform_device d s
                    found.fate v))
        ]
      ]

  create_with_drm_fd-HasValid :
      (answers : SetupAnswers) (drm_fd : ℤ) (fate : List Bool)
      → HasValid
          (westfield_egl_egl_create_with_drm_fd mod_invalid mod_linear answers fresh_egl drm_fd
            fate).state
  unfolding westfield_egl_egl_create_with_drm_fd
  create_with_drm_fd-HasValid answers drm_fd fate =
      elim (Checked-cases (egl_create answers.egl fresh_egl)) [
        | inl e ↦ rw (e, westfield_egl_egl_create_with_drm_fd) empty_set-IsValid
        | inr (inl e) ↦ rw (e, westfield_egl_egl_create_with_drm_fd) empty_set-IsValid
        | inr (inr (created, e)) ↦
            let kept = egl_create-formats answers.egl fresh_egl created e in
            rw (e, westfield_egl_egl_create_with_drm_fd)
              (choose_platform-HasValid answers created drm_fd fate (rw kept empty_set-IsValid))
      ]

  -- The texture formats of a renderer that westfield_egl_new returns are a valid set.
  pub westfield_egl_new-IsValid :
      (answers : SetupAnswers) (path : List ℕ) (fate : List Bool) (drm_fd : ℤ) (s : EglState)
      → (westfield_egl_new mod_invalid mod_linear answers path fate).renderer
        ≡ returned (some (drm_fd, s))
      → IsValid s.formats.texture
  unfolding westfield_egl_new
  westfield_egl_new-IsValid answers path fate drm_fd s h =
      let fd = answers.open_path path in
      let r =
        westfield_egl_egl_create_with_drm_fd mod_invalid mod_linear answers fresh_egl fd
          (alloc fate).1 in
      let valid = create_with_drm_fd-HasValid answers fd (alloc fate).1 in
      elim (Bool-cases (is_nonneg fd)) [
        | inr n ↦ absurd (ground arith)
        | inl n ↦ elim (Bool-cases ((alloc fate).0 && not (eq_ℤ fd (pos 0)))) [
          | inr g ↦ absurd (ground arith)
          | inl g ↦ elim (ok-cases r.ok) [
            | inl e ↦ absurd (ground arith)
            | inr (inr e) ↦ absurd (ground arith)
            | inr (inl e) ↦ let same : s ≡ r.state = ground arith in rw same valid
          ]
        ]
      ]
