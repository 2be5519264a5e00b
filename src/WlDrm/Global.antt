-- ===== src/WlDrm/Global.antt =====
-- The global itself: drm_bind, drm_destroy and wlr_drm_create of wlr_drm.c. What libdrm and libwayland
-- answer are arguments.
use westfield.Drm.Format.{DrmFormat, drm_format_has}
use westfield.Drm.FormatSet.{DrmFormatSet, empty_set, drm_format_set_copy}
use westfield.Drm.Intersection.{Checked, returned, aborted}
use westfield.Feedback.Default.{DrmDevice, node_name}
use westfield.Prelude.{
  ℕ, ℤ, is_nonneg, Bool, ◌&&◌, Option, none, some, List, [], ◌∷◌, ◌++◌, alloc, if◌then◌else◌,
}

-- struct wlr_drm
pub record WlDrm : Type 0 where
  pub node_name : List ℕ
  pub formats : DrmFormatSet

-- The events of wl_drm that a bind sends.
pub data DrmEvent : Type 0 where
  send_device : List ℕ → DrmEvent
  send_capability_prime : DrmEvent
  send_format : ℕ → DrmEvent
  no_memory : DrmEvent

module _ (mod_invalid : ℕ) where
  unfoldable pub bind_formats : List DrmFormat → List DrmEvent
  bind_formats [] = []
  bind_formats (fmt ∷ fmts) =
      if drm_format_has fmt mod_invalid
      then send_format fmt.format ∷ bind_formats fmts
      else bind_formats fmts

  -- `created` says whether wl_resource_create returns a resource.
  unfoldable pub drm_bind : Bool → WlDrm → List DrmEvent
  drm_bind created drm =
      if created
      then send_device drm.node_name ∷ send_capability_prime ∷ bind_formats drm.formats.formats
      else no_memory ∷ []

-- What is taken from libdrm, the heap and libwayland, and given back. `format_set` is the memory of a
-- copied format set.
pub data Held : Type 0 where
  drm_device name_string drm_struct format_set wl_global : Held

unfoldable pub drm_destroy : WlDrm → List Held
drm_destroy drm = format_set ∷ name_string ∷ wl_global ∷ drm_struct ∷ []

pub record DrmCreated : Type 0 where
  pub drm : Checked (Option WlDrm)
  pub taken : List Held
  pub given : List Held

-- From the copy of the formats on: whether it was made, and `drm->formats` after it.
unfoldable pub finish_drm : Bool → List ℕ → Bool × DrmFormatSet → DrmCreated
finish_drm global name (copied, formats) =
    let held : List Held = if copied then format_set ∷ [] else [] in
    if copied && global
    then record {
      drm = returned (some (record { node_name = name; formats = formats }));
      taken = drm_device ∷ name_string ∷ drm_struct ∷ format_set ∷ wl_global ∷ [];
      given = drm_device ∷ [];
    }
    else record {
      drm = returned none;
      taken = drm_device ∷ name_string ∷ drm_struct ∷ held;
      given = drm_device ∷ (held ++ name_string ∷ drm_struct ∷ []);
    }

-- From the copied name on. A set that was not copied is empty, and finishing it gives nothing back. `global` says whether wl_global_create returns a global.
unfoldable pub make_drm : Bool → List ℕ → DrmFormatSet → List Bool → DrmCreated
unfolding finish_drm
make_drm global name formats fate =
    let (got, rest) = alloc fate in
    let (copied, rest') = drm_format_set_copy empty_set formats rest in
    if got
    then elim copied [
      | aborted ↦ record {
        drm = aborted;
        taken = drm_device ∷ name_string ∷ drm_struct ∷ [];
        given = drm_device ∷ [];
      }
      | returned result ↦ finish_drm global name result
    ]
    else record {
      drm = returned none;
      taken = drm_device ∷ name_string ∷ [];
      given = drm_device ∷ name_string ∷ [];
    }

-- `get_device` is drmGetDevice2; the descriptor and the formats are those of the renderer.
unfoldable pub wlr_drm_create :
    (ℤ → Option DrmDevice) → Bool → ℤ → DrmFormatSet → List Bool → DrmCreated
wlr_drm_create get_device global drm_fd formats fate =
    let nothing : DrmCreated = record { drm = returned none; taken = []; given = [] } in
    if is_nonneg drm_fd
    then elim (get_device drm_fd) [
      | none ↦ nothing
      | some dev ↦
          let (got, rest) = alloc fate in
          elim (node_name dev) [
            | aborted ↦ record { drm = aborted; taken = drm_device ∷ []; given = [] }
            | returned name ↦ if got then make_drm global name formats rest else record {
              drm = returned none;
              taken = drm_device ∷ [];
              given = drm_device ∷ [];
            }
          ]
    ]
    else nothing
