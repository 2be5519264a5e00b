-- ===== src/Feedback/Default.antt =====
-- The default feedback of the global: set_default_feedback, wlr_linux_dmabuf_v1_create,
-- wlr_linux_dmabuf_v1_create_with_renderer and linux_dmabuf_v1_destroy of wlr_linux_dmabuf_v1.c. The
-- answers of the kernel, of libdrm and of wl_global_create are arguments.
use westfield.Drm.Format.{DrmFormat}
use westfield.Drm.FormatSet.{DrmFormatSet, empty_set, drm_format_set_add}
use westfield.Drm.Intersection.{Checked, returned, aborted}
use westfield.Feedback.Compile.{
  Tranche, Feedback, CompiledFeedback, TableFile, feedback_compile, compiled_feedback_destroy,
}
use westfield.Prelude.{
  ℕ, ◌/◌, ◌%◌, ◌^◌, ℤ, minus_one, is_nonneg, Bool, true, false, Option, none, some, List, [], ◌∷◌,
  ◌++◌, Mem, alloc, ◌==◌, if◌then◌else◌,
}

-- struct wlr_linux_dmabuf_v1; its surfaces are in Feedback/Surfaces.
pub record Manager : Type 0 where
  pub default_feedback : Option CompiledFeedback
  pub default_formats : DrmFormatSet
  pub main_device_fd : ℤ

-- What the program reads of a drmDevice: a bit for each kind of node, and their names.
pub record DrmDevice : Type 0 where
  pub available_nodes : ℕ
  pub nodes : ℕ → List ℕ

abbrev pub drm_node_primary : ℕ
drm_node_primary = 0

abbrev pub drm_node_render : ℕ
drm_node_render = 2

-- The answers outside the program: the file of the table, drmGetDeviceFromDevId, and open.
pub record Devices : Type 0 where
  pub file : TableFile
  pub device_from_dev_id : ℕ → Option DrmDevice
  pub open_node : List ℕ → ℤ

-- `device->available_nodes & (1 << node)`
abbrev pub has_node : DrmDevice → ℕ → Bool
has_node device node = device.available_nodes / 2 ^ node % 2 == 1

-- The name of the node that is opened. A device with neither node fails the assertion.
unfoldable pub node_name : DrmDevice → Checked (List ℕ)
node_name device =
    if has_node device drm_node_render
    then returned (device.nodes drm_node_render)
    else if has_node device drm_node_primary
    then returned (device.nodes drm_node_primary)
    else aborted

-- The innermost loop, which stops at a failed drm_format_set_add.
unfoldable pub merge_modifiers : ℕ → List ℕ → DrmFormatSet → Mem (Bool × DrmFormatSet)
merge_modifiers format [] s fate = ((true, s), fate)
merge_modifiers format (m ∷ ms) s fate =
    let (added, rest) = drm_format_set_add s format m fate in
    let more = merge_modifiers format ms added.1 rest in if added.0 then more else (added, rest)

unfoldable pub merge_formats : List DrmFormat → DrmFormatSet → Mem (Bool × DrmFormatSet)
merge_formats [] s fate = ((true, s), fate)
merge_formats (fmt ∷ fmts) s fate =
    let (merged, rest) = merge_modifiers fmt.format fmt.modifiers s fate in
    let more = merge_formats fmts merged.1 rest in if merged.0 then more else (merged, rest)

unfoldable pub merge_tranches : List Tranche → DrmFormatSet → Mem (Bool × DrmFormatSet)
merge_tranches [] s fate = ((true, s), fate)
merge_tranches (t ∷ ts) s fate =
    let (merged, rest) = merge_formats t.formats.formats s fate in
    let more = merge_tranches ts merged.1 rest in if merged.0 then more else (merged, rest)

-- The result, the manager after the call, and the descriptors closed.
pub record DefaultResult : Type 0 where
  pub ok : Checked Bool
  pub manager : Manager
  pub closes : List ℤ
  pub fate : List Bool

-- `if (main_device_fd >= 0) close(main_device_fd)`
abbrev pub close_main : ℤ → List ℤ
close_main fd = if is_nonneg fd then fd ∷ [] else []

-- From the open device on: the formats are merged and the manager takes them and the feedback. At
-- error_formats the descriptor of the device is not closed.
unfoldable pub use_feedback :
    Manager → Feedback → CompiledFeedback → ℤ → List ℤ → List Bool → DefaultResult
use_feedback manager feedback compiled main_device_fd closed fate =
    let (merged, rest) =
      merge_tranches (feedback.preferred ++ feedback.fallback ∷ []) empty_set fate in
    if merged.0
    then record {
      ok = returned true;
      manager = record {
        default_feedback = some compiled;
        default_formats = merged.1;
        main_device_fd = main_device_fd;
      };
      closes =
          closed
          ++ compiled_feedback_destroy manager.default_feedback
          ++ close_main manager.main_device_fd;
      fate = rest;
    }
    else record {
      ok = returned false;
      manager = manager;
      closes = closed ++ compiled_feedback_destroy (some compiled);
      fate = rest;
    }

-- From the compiled feedback on.
unfoldable pub open_device :
    Devices → Manager → Feedback → CompiledFeedback → List ℤ → List Bool → DefaultResult
open_device devices manager feedback compiled closed fate =
    let failed : DefaultResult = record {
      ok = returned false;
      manager = manager;
      closes = closed ++ compiled_feedback_destroy (some compiled);
      fate = fate;
    } in
    elim (devices.device_from_dev_id feedback.main_device) [
      | none ↦ failed
      | some device ↦ elim (node_name device) [
        | aborted ↦ record { ok = aborted; manager = manager; closes = closed; fate = fate }
        | returned name ↦
            let main_device_fd = devices.open_node name in
            if is_nonneg main_device_fd
            then use_feedback manager feedback compiled main_device_fd closed fate
            else failed
      ]
    ]

unfoldable pub set_default_feedback : Devices → Manager → Feedback → List Bool → DefaultResult
set_default_feedback devices manager feedback fate =
    let r = feedback_compile devices.file feedback fate in
    elim r.compiled [
      | aborted ↦ record { ok = aborted; manager = manager; closes = r.closes; fate = r.fate }
      | returned none ↦ record {
        ok = returned false;
        manager = manager;
        closes = r.closes;
        fate = r.fate;
      }
      | returned (some compiled) ↦ open_device devices manager feedback compiled r.closes r.fate
    ]

abbrev pub fresh_manager : Manager
fresh_manager = record {
  default_feedback = none;
  default_formats = empty_set;
  main_device_fd = minus_one;
}

-- The manager, if one is returned, the descriptors closed, and whether the global was destroyed.
pub record CreateResult : Type 0 where
  pub manager : Checked (Option Manager)
  pub closes : List ℤ
  pub globals_destroyed : ℕ

abbrev pub finish_create : DefaultResult → Checked Bool → CreateResult
finish_create r aborted = record { manager = aborted; closes = r.closes; globals_destroyed = 0 }
finish_create r (returned true) = record {
  manager = returned (some r.manager);
  closes = r.closes;
  globals_destroyed = 0;
}
finish_create r (returned false) = record {
  manager = returned none;
  closes = r.closes;
  globals_destroyed = 1;
}

-- `global` says whether wl_global_create returns a global; `version` is no more than
-- LINUX_DMABUF_VERSION, as asserted.
unfoldable pub wlr_linux_dmabuf_v1_create : Devices → Bool → Feedback → List Bool → CreateResult
wlr_linux_dmabuf_v1_create devices global feedback fate =
    let (got, rest) = alloc fate in
    let nothing : CreateResult = record {
      manager = returned none;
      closes = [];
      globals_destroyed = 0;
    } in
    let r = set_default_feedback devices fresh_manager feedback rest in
    if got then if global then finish_create r r.ok else nothing else nothing

-- The descriptor of the renderer's device, and its texture formats; fstat gives the device behind
-- the descriptor.
unfoldable pub feedback_tranche_init_with_renderer :
    (ℤ → Option ℕ) → ℤ → DrmFormatSet → Option Tranche
feedback_tranche_init_with_renderer fstat drm_fd texture_formats =
    if is_nonneg drm_fd
    then elim (fstat drm_fd) [
      | none ↦ none
      | some st_rdev ↦
          some (record { target_device = st_rdev; flags = 0; formats = texture_formats })
    ]
    else none

-- Feedback of one tranche.
abbrev pub renderer_feedback : Tranche → Feedback
renderer_feedback tranche = record {
  main_device = tranche.target_device;
  preferred = [];
  fallback = tranche;
}

unfoldable pub wlr_linux_dmabuf_v1_create_with_renderer :
    Devices → Bool → (ℤ → Option ℕ) → ℤ → DrmFormatSet → List Bool → CreateResult
wlr_linux_dmabuf_v1_create_with_renderer devices global fstat drm_fd texture_formats fate =
    elim (feedback_tranche_init_with_renderer fstat drm_fd texture_formats) [
      | none ↦ record { manager = returned none; closes = []; globals_destroyed = 0 }
      | some tranche ↦ wlr_linux_dmabuf_v1_create devices global (renderer_feedback tranche) fate
    ]

-- compiled_feedback_destroy for each surface.
unfoldable pub destroy_surfaces : List (Option CompiledFeedback) → List ℤ
destroy_surfaces [] = []
destroy_surfaces (own ∷ surfaces) = compiled_feedback_destroy own ++ destroy_surfaces surfaces

-- The descriptors closed, for the feedback of each surface that is left.
unfoldable pub linux_dmabuf_v1_destroy : List (Option CompiledFeedback) → Manager → List ℤ
linux_dmabuf_v1_destroy surfaces manager =
    destroy_surfaces surfaces
    ++ compiled_feedback_destroy manager.default_feedback
    ++ manager.main_device_fd ∷ []
