-- ===== src/Tests/Setup.antt =====
-- Renderers on a machine with one card: on the platform of GBM, and where nothing is offered.
use westfield.Drm.Intersection.{returned}
use westfield.Egl.Balance.{Undone}
use westfield.Egl.Device.{DeviceAnswers, open_render_node, get_egl_device_from_drm_fd}
use westfield.Egl.Display.{
  EglState, EglAnswers, fresh_egl, egl_create, query_device, set_formats, egl_init_display,
}
use westfield.Egl.Extensions.{check_egl_ext}
use westfield.Egl.Formats.{Driver, get_egl_dmabuf_formats, init_dmabuf_formats}
use westfield.Egl.Found.{Offers, Matches, get_egl_device_from_drm_fd-Matches}
use westfield.Egl.Names.{
  extension_name, has_extension, ext_platform_base, khr_platform_gbm, khr_no_config_context,
  khr_surfaceless_context, mesa_device_software,
}
use westfield.Egl.Renderer.{NewRunning, westfield_egl_new-NewRunning, westfield_egl_finalize-loses}
use westfield.Egl.Settled.{openings, closings, made_gbms, destroyed_gbms}
use westfield.Egl.Setup.{
  SetupAnswers, make_context, egl_init, after_gbm, create_on_gbm, choose_platform,
  westfield_egl_egl_create_with_drm_fd, westfield_egl_new, westfield_egl_finalize,
}
use westfield.Egl.Suits.{Suits, egl_init_display-Suits}
use westfield.Feedback.Default.{DrmDevice}
use westfield.Dmabuf.Ownership.{bit}
use westfield.Prelude.{
  ℕ, ◌+◌, ◌-◌, ◌≡◌, refl, ◌⊎◌, ℤ, pos, eq_ℤ, true, false, none, some, List, [], ◌∷◌, ◌++◌, alloc,
  elem,
}

abbrev no_driver : Driver
no_driver = record {
  has_import = false;
  has_import_modifiers = false;
  format_count = none;
  formats = none;
  modifier_count = λ f. none;
  modifiers = λ f. none;
}

abbrev client_exts : List ℕ
client_exts = extension_name ext_platform_base ++ 32 ∷ extension_name khr_platform_gbm

abbrev pub display_exts : List ℕ
display_exts = extension_name khr_no_config_context ++ 32 ∷ extension_name khr_surfaceless_context

abbrev pub gbm_only : EglAnswers
gbm_only = record {
  client_exts = some client_exts;
  proc = λ p. true;
  bind_api = true;
  platform_display = λ p n. some 40;
  initialize = λ d. true;
  display_exts = λ d. some display_exts;
  device_attrib = λ d. none;
  device_exts = λ d. none;
  allow_software = none;
  driver = no_driver;
  fallback_formats = [];
  chosen_config = 5;
  create_context = λ d c attribs. some 50;
}

abbrev card : DrmDevice
card = record { available_nodes = 5; nodes = λ n. n ∷ [] }

-- The second device of EGL has the card's render node.
abbrev two_devices : DeviceAnswers
two_devices = record {
  devices_counted = true;
  devices = some (60 ∷ 61 ∷ []);
  device_of_fd = λ fd. some card;
  render_node_file = λ d. some ((d - 59) ∷ []);
  device_file = λ d. none;
  drm_counted = true;
  drm_listed = none;
  knows_render_nodes = true;
}

abbrev pub gbm_machine : SetupAnswers
gbm_machine = record {
  egl = gbm_only;
  devices = two_devices;
  render_name = λ fd. some (2 ∷ []);
  primary_name = λ fd. none;
  open_node = λ name. pos 11;
  open_path = λ path. pos 10;
  gbm_create_device = λ fd. some 30;
}

gbm_renderer :
    (s : EglState) × ((westfield_egl_new 7 0 gbm_machine (47 ∷ []) []).renderer
      ≡ returned (some (pos 10, s)))
unfolding westfield_egl_new westfield_egl_egl_create_with_drm_fd egl_create choose_platform
    create_on_gbm open_render_node egl_init egl_init_display query_device set_formats make_context
    after_gbm has_extension check_egl_ext get_egl_dmabuf_formats init_dmabuf_formats
gbm_renderer = (_, refl)

westfield_egl_finalize-loses_example :
    let es = (westfield_egl_new 7 0 gbm_machine (47 ∷ []) []).effects in
    let end = westfield_egl_finalize (pos 10) gbm_renderer.0 in
    ((destroyed_gbms end ≡ none ∷ []) × ((z : ℤ) → openings z es ≡ closings z es + closings z end))
    ⊎ ((gbm_fd : ℤ) × (destroyed_gbms end ≡ made_gbms es)
        × ((z : ℤ) → openings z es ≡ closings z es + closings z end + bit (eq_ℤ z gbm_fd)))
westfield_egl_finalize-loses_example =
    westfield_egl_finalize-loses 7 0 gbm_machine (47 ∷ []) [] (pos 10) gbm_renderer.0 gbm_renderer.1

westfield_egl_new-NewRunning_example :
    let r = westfield_egl_new 7 0 gbm_machine (47 ∷ []) [] in
    (r.renderer ≡ returned none → Undone r.effects)
    × ((drm_fd : ℤ) (s : EglState)
        → r.renderer ≡ returned (some (drm_fd, s))
        → NewRunning drm_fd s r.effects)
westfield_egl_new-NewRunning_example = westfield_egl_new-NewRunning 7 0 gbm_machine (47 ∷ []) []

get_egl_device_from_drm_fd-Matches_example :
    let r = get_egl_device_from_drm_fd two_devices true true (pos 10) [] in
    ((d : ℕ) → r.device ≡ returned (some d) → Matches two_devices (pos 10) d)
    × ((ds : List ℕ) (device : DrmDevice) (d : ℕ) (name : List ℕ)
        → true ≡ true
        → true ≡ true
        → (alloc []).0 ≡ true
        → two_devices.devices ≡ some ds
        → two_devices.device_of_fd (pos 10) ≡ some device
        → r.device ≡ returned none
        → elem d ds ≡ true
        → two_devices.render_node_file d ≡ some name
        → ¬ Offers device name)
get_egl_device_from_drm_fd-Matches_example =
    get_egl_device_from_drm_fd-Matches two_devices refl true true (pos 10) []

-- A software device, where the environment asks for it.
abbrev software_device : EglAnswers
software_device = record gbm_only {
  device_attrib = λ d. some 70;
  device_exts = λ d. some (extension_name mesa_device_software);
  allow_software = some (49 ∷ []);
}

abbrev queries_devices : EglState
queries_devices = record fresh_egl { has_device_query = true; loaded = λ p. true }

software_device-ok : (egl_init_display 7 0 software_device 40 queries_devices []).ok ≡ returned true
unfolding egl_init_display query_device set_formats has_extension check_egl_ext
    get_egl_dmabuf_formats init_dmabuf_formats
software_device-ok = refl

egl_init_display-Suits_example :
    Suits software_device 40 true (egl_init_display 7 0 software_device 40 queries_devices [])
egl_init_display-Suits_example = egl_init_display-Suits 7 0 software_device 40 queries_devices []
