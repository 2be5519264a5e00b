-- ===== src/Node/Drm.antt =====
-- initDrm of node-addon/westfield-addon.c, which makes a renderer and the two globals that share
-- buffers with it. `path` is what the array of 128 bytes holds of the path; each of the three calls
-- has its own outcomes of allocations.
use westfield.Drm.Intersection.{Checked, returned, aborted}
use westfield.Egl.Display.{EglState}
use westfield.Egl.Setup.{EglEffect, SetupAnswers, westfield_egl_new}
use westfield.Feedback.Default.{
  Devices, DrmDevice, CreateResult, wlr_linux_dmabuf_v1_create_with_renderer,
}
use westfield.Prelude.{ℕ, ℤ, Bool, Option, none, some, List, []}
use westfield.WlDrm.Global.{DrmCreated, wlr_drm_create}

-- The answers to the two globals: those of the machine, of fstat and of drmGetDevice2, and whether
-- wl_global_create returns a global.
pub record GlobalAnswers : Type 0 where
  pub devices : Devices
  pub fstat : ℤ → Option ℕ
  pub get_device : ℤ → Option DrmDevice
  pub dmabuf_global : Bool
  pub drm_global : Bool

pub record InitDrm : Type 0 where
  pub renderer : Checked (Option (ℤ × EglState))
  pub effects : List EglEffect
  pub dmabuf : CreateResult
  pub drm : DrmCreated

-- No global was made; `aborted` where the program has ended.
abbrev pub no_dmabuf : CreateResult
no_dmabuf = record { manager = returned none; closes = []; globals_destroyed = 0 }

abbrev pub no_drm : DrmCreated
no_drm = record { drm = returned none; taken = []; given = [] }

abbrev pub ended_drm : DrmCreated
ended_drm = record no_drm { drm = aborted }

-- The results of the two creations are not tested. wl_drm is made even if the first global is not.
unfoldable pub create_globals :
    GlobalAnswers → ℤ → EglState → List Bool → List Bool → CreateResult × DrmCreated
create_globals answers drm_fd s fate fate' =
    let formats = s.formats.texture in
    let dmabuf =
      wlr_linux_dmabuf_v1_create_with_renderer answers.devices answers.dmabuf_global answers.fstat
        drm_fd formats fate in
    elim dmabuf.manager [
      | aborted ↦ (dmabuf, ended_drm)
      | returned manager ↦
          (dmabuf, wlr_drm_create answers.get_device answers.drm_global drm_fd formats fate')
    ]

module _ (mod_invalid mod_linear : ℕ) where
  unfoldable pub init_drm :
      SetupAnswers → GlobalAnswers → List ℕ → List Bool → List Bool → List Bool → InitDrm
  init_drm setup answers path fate dmabuf_fate drm_fate =
      let new = westfield_egl_new mod_invalid mod_linear setup path fate in
      let without : InitDrm = record {
        renderer = new.renderer;
        effects = new.effects;
        dmabuf = no_dmabuf;
        drm = no_drm;
      } in
      elim new.renderer [
        | aborted ↦ record without {
          dmabuf = record no_dmabuf { manager = aborted };
          drm = ended_drm;
        }
        | returned none ↦ without
        | returned (some (drm_fd, s)) ↦
            let globals = create_globals answers drm_fd s dmabuf_fate drm_fate in
            record without { dmabuf = globals.0; drm = globals.1 }
      ]
