-- ===== src/Node/Offers.antt =====
-- What the clients of the two globals of initDrm (node-addon/westfield-addon.c) are offered.
use westfield.Drm.FormatSet.{DrmFormatSet, drm_format_set_has}
use westfield.Drm.Intersection.{returned}
use westfield.Drm.Membership.{has-has_pair}
use westfield.Egl.Display.{EglState}
use westfield.Egl.Setup.{SetupAnswers, westfield_egl_new}
use westfield.Egl.Valid.{westfield_egl_new-IsValid}
use westfield.Feedback.Announce.{linux_dmabuf_bind}
use westfield.Feedback.Announced.{plain_formats}
use westfield.Feedback.Created.{wlr_linux_dmabuf_v1_create_with_renderer-Serves}
use westfield.Feedback.Decode.{Checked-cases}
use westfield.Feedback.Default.{Manager, wlr_linux_dmabuf_v1_create_with_renderer}
use westfield.Feedback.Pairs.{has_pair-entries}
use westfield.Feedback.Table.{table_length}
use westfield.Node.Drm.{GlobalAnswers, InitDrm, create_globals, init_drm}
use westfield.Prelude.{
  ℕ, ◌<◌, ◌≤◌, ◌^◌, ◌≡◌, refl, ◌∙◌, sym, inl, inr, ℤ, Bool, true, some, List, [], elem, arith,
}
use westfield.WlDrm.Announced.{announced, drm_bind-announced, drm_bind-has}
use westfield.WlDrm.Created.{wlr_drm_create-Makes}
use westfield.WlDrm.Global.{WlDrm, drm_bind, wlr_drm_create}

-- The globals that exist for a renderer, and what their clients are told.
pub record Offers (mod_invalid mod_linear : ℕ) (formats : DrmFormatSet) (r : InitDrm) : Type 0 where
  pub dmabuf :
      (m : Manager)
      → r.dmabuf.manager ≡ returned (some m)
      → ((g k : ℕ) → drm_format_set_has m.default_formats g k ≡ drm_format_set_has formats g k)
        × ((version g : ℕ)
            → version < 3
            → elem g (
                plain_formats
                  (linux_dmabuf_bind mod_invalid mod_linear true m.default_formats version))
              ≡ drm_format_set_has formats g mod_invalid)
  pub drm :
      (d : WlDrm)
      → r.drm.drm ≡ returned (some d)
      → (g : ℕ)
      → elem g (announced (drm_bind mod_invalid true d)) ≡ drm_format_set_has formats g mod_invalid

module _ (mod_invalid mod_linear : ℕ) where
  create_globals-cases :
      (answers : GlobalAnswers) (drm_fd : ℤ) (s : EglState) (fate fate' : List Bool)
      → let r = create_globals answers drm_fd s fate fate' in
        let formats = s.formats.texture in
        (r.0
          ≡ wlr_linux_dmabuf_v1_create_with_renderer answers.devices answers.dmabuf_global
              answers.fstat drm_fd formats fate)
        × ((d : WlDrm)
            → r.1.drm ≡ returned (some d)
            → (wlr_drm_create answers.get_device answers.drm_global drm_fd formats fate').drm
              ≡ returned (some d))
  unfolding create_globals
  create_globals-cases answers drm_fd s fate fate' =
      let dmabuf =
        wlr_linux_dmabuf_v1_create_with_renderer answers.devices answers.dmabuf_global answers.fstat
          drm_fd s.formats.texture fate in
      elim (Checked-cases dmabuf.manager) [
        | inl e ↦ (ground arith, λ d h. absurd (ground arith))
        | inr (inl e) ↦ (ground arith, λ d h. ground arith)
        | inr (inr (m, e)) ↦ (ground arith, λ d h. ground arith)
      ]

  -- If initDrm makes a renderer with at most 2^16 pairs, then every global that it makes besides
  -- offers exactly what the renderer can read: the default formats of zwp_linux_dmabuf_v1 have the
  -- pairs of the renderer's texture formats, and a client of it below version 3, as a client of
  -- wl_drm, is told of exactly those formats that the renderer has with the implicit modifier.
  pub init_drm-Offers :
      (setup : SetupAnswers) (answers : GlobalAnswers) (path : List ℕ)
      (fate dmabuf_fate drm_fate : List Bool) (drm_fd : ℤ) (s : EglState)
      → let r = init_drm mod_invalid mod_linear setup answers path fate dmabuf_fate drm_fate in
        r.renderer ≡ returned (some (drm_fd, s))
        → table_length s.formats.texture.formats ≤ 2 ^ 16
        → Offers mod_invalid mod_linear s.formats.texture r
  unfolding init_drm
  init_drm-Offers setup answers path fate dmabuf_fate drm_fate drm_fd s h small =
      let call = init_drm mod_invalid mod_linear setup answers path fate dmabuf_fate drm_fate in
      let new = westfield_egl_new mod_invalid mod_linear setup path fate in
      let formats = s.formats.texture in
      let made : new.renderer ≡ returned (some (drm_fd, s)) = elim (Checked-cases new.renderer) [
        | inl e ↦ absurd (ground arith)
        | inr (inl e) ↦ absurd (ground arith)
        | inr (inr (x, e)) ↦ ground arith
      ] in
      let globals = create_globals answers drm_fd s dmabuf_fate drm_fate in
      let first : call.dmabuf ≡ globals.0 = rw (made, init_drm) refl in
      let second : call.drm ≡ globals.1 = rw (made, init_drm) refl in
      let (same_dmabuf, same_drm) = create_globals-cases answers drm_fd s dmabuf_fate drm_fate in
      let valid = westfield_egl_new-IsValid mod_invalid mod_linear setup path fate drm_fd s made in
      record {
        dmabuf = λ m e.
            let (device, _, serves) =
              wlr_linux_dmabuf_v1_create_with_renderer-Serves answers.devices answers.dmabuf_global
                answers.fstat drm_fd formats dmabuf_fate m small
                (rw (← same_dmabuf) (ground arith)) in
            let same : (g k : ℕ)
                → drm_format_set_has m.default_formats g k ≡ drm_format_set_has formats g k =
              λ g k.
                serves.announced g k
                ∙ sym (has_pair-entries formats.formats g k valid.codes)
                ∙ sym (has-has_pair formats g k) in
            (
              same,
              λ version g old.
                  let d : WlDrm = record { node_name = []; formats = m.default_formats } in
                  let told = drm_bind-announced mod_invalid mod_linear version d serves.valid old in
                  rw (← told.1) (told.0 g ∙ same g mod_invalid),
            );
        drm = λ d e g.
            let makes =
              wlr_drm_create-Makes answers.get_device answers.drm_global drm_fd formats drm_fate in
            let (kept, _, _) = makes.made d (same_drm d (ground arith)) in
            drm_bind-has mod_invalid d g (rw kept valid.codes)
            ∙ rw kept (sym (has-has_pair formats g mod_invalid));
      }
