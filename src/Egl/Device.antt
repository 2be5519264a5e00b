-- ===== src/Egl/Device.antt =====
-- The choice of a device: device_has_name, get_render_name, get_egl_device_from_drm_fd and
-- open_render_node of westfield-egl.c. What libdrm, the kernel and the EGL driver answer are
-- arguments; a device of EGL is a number.
use westfield.Drm.Intersection.{Checked, returned, aborted}
use westfield.Egl.Extensions.{eq_string}
use westfield.Feedback.Default.{DrmDevice, has_node, drm_node_primary, drm_node_render}
use westfield.Prelude.{
  ℕ, zero, suc, ◌+◌, ℤ, minus_one, Bool, true, false, Option, none, some, List, [], ◌∷◌, Mem, alloc,
  if◌then◌else◌,
}

abbrev pub drm_node_max : ℕ
drm_node_max = 3

-- The loop, for `n` more kinds of node from kind `i`.
unfoldable pub has_name_from : DrmDevice → List ℕ → ℕ → ℕ → Bool
has_name_from device name zero i = false
has_name_from device name (suc n) i =
    let rest = has_name_from device name n (i + 1) in
    if has_node device i then if eq_string (device.nodes i) name then true else rest else rest

unfoldable pub device_has_name : DrmDevice → List ℕ → Bool
device_has_name device name = has_name_from device name drm_node_max 0

unfoldable pub find_named : List DrmDevice → List ℕ → Option DrmDevice
find_named [] name = none
find_named (device ∷ devices) name =
    let rest = find_named devices name in if device_has_name device name then some device else rest

-- strdup of the name of the node that a device offers.
unfoldable pub dup_render_name : DrmDevice → Mem (Checked (Option (List ℕ)))
dup_render_name device fate =
    let (got, rest) = alloc fate in
    if has_node device drm_node_render
    then (returned (if got then some (device.nodes drm_node_render) else none), rest)
    else if has_node device drm_node_primary
    then (returned (if got then some (device.nodes drm_node_primary) else none), rest)
    else (aborted, fate)

-- The answers of the two calls of drmGetDevices2: whether the first gives a length, and the devices
-- of the second. Every device is freed before it returns.
unfoldable pub get_render_name :
    Bool → Option (List DrmDevice) → List ℕ → Mem (Checked (Option (List ℕ)))
get_render_name counted listed name fate =
    let (got, rest) = alloc fate in
    if counted
    then if got
      then elim listed [
        | none ↦ (returned none, rest)
        | some devices ↦ elim (find_named devices name) [
          | none ↦ (returned none, rest)
          | some device ↦ dup_render_name device rest
        ]
      ]
      else (returned none, rest)
    else (returned none, fate)

-- What is asked about devices.
pub record DeviceAnswers : Type 0 where
  -- The first call of eglQueryDevicesEXT succeeds; the devices of the second.
  pub devices_counted : Bool
  pub devices : Option (List ℕ)
  pub device_of_fd : ℤ → Option DrmDevice
  -- eglQueryDeviceStringEXT for EGL_DRM_RENDER_NODE_FILE_EXT and EGL_DRM_DEVICE_FILE_EXT
  pub render_node_file : ℕ → Option (List ℕ)
  pub device_file : ℕ → Option (List ℕ)
  pub drm_counted : Bool
  pub drm_listed : Option (List DrmDevice)
  -- Whether the headers define EGL_EXT_device_drm_render_node.
  pub knows_render_nodes : Bool

-- The name of one device; `none` continues with the next.
unfoldable pub egl_device_name : DeviceAnswers → ℕ → Mem (Checked (Option (List ℕ)))
egl_device_name answers d fate =
    if answers.knows_render_nodes
    then (returned (answers.render_node_file d), fate)
    else elim (answers.device_file d) [
      | none ↦ (returned none, fate)
      | some primary ↦ get_render_name answers.drm_counted answers.drm_listed primary fate
    ]

-- The loop over the devices of EGL.
unfoldable pub match_device : DeviceAnswers → DrmDevice → List ℕ → Mem (Checked (Option ℕ))
match_device answers device [] fate = (returned none, fate)
match_device answers device (d ∷ ds) fate =
    let (named, rest) = egl_device_name answers d fate in
    let more = match_device answers device ds rest in
    elim named [
      | aborted ↦ (aborted, rest)
      | returned none ↦ more
      | returned (some name) ↦
          if device_has_name device name then (returned (some d), rest) else more
    ]

-- The device, whether the array of devices was allocated and not freed, and the allocations left.
-- Calling a function that could not be loaded is `aborted`.
pub record DeviceResult : Type 0 where
  pub device : Checked (Option ℕ)
  pub leaks : Bool
  pub fate : List Bool

unfoldable pub match_fd : DeviceAnswers → Bool → ℤ → List ℕ → List Bool → DeviceResult
match_fd answers query_string drm_fd ds fate = elim (answers.device_of_fd drm_fd) [
  | none ↦ record { device = returned none; leaks = true; fate = fate }
  | some device ↦
      let (found, rest) = match_device answers device ds fate in
      elim ds [
        | [] ↦ record { device = returned none; leaks = false; fate = fate }
        | d ∷ more ↦
            if query_string
            then record { device = found; leaks = false; fate = rest }
            else record { device = aborted; leaks = false; fate = fate }
      ]
]

-- `query_devices` and `query_string` say whether eglQueryDevicesEXT and eglQueryDeviceStringEXT are
-- there.
unfoldable pub get_egl_device_from_drm_fd :
    DeviceAnswers → Bool → Bool → ℤ → List Bool → DeviceResult
get_egl_device_from_drm_fd answers query_devices query_string drm_fd fate =
    let (got, rest) = alloc fate in
    let nothing : DeviceResult = record { device = returned none; leaks = false; fate = fate } in
    if query_devices
    then if answers.devices_counted
      then if got
        then elim answers.devices [
          | none ↦ record { device = returned none; leaks = true; fate = rest }
          | some ds ↦ match_fd answers query_string drm_fd ds rest
        ]
        else record { device = returned none; leaks = false; fate = rest }
      else nothing
    else nothing

-- The names that libdrm gives for a descriptor, and open; the name is freed.
unfoldable pub open_render_node :
    (ℤ → Option (List ℕ)) → (ℤ → Option (List ℕ)) → (List ℕ → ℤ) → ℤ → ℤ
open_render_node render_name primary_name open_node drm_fd = elim (render_name drm_fd) [
  | some name ↦ open_node name
  | none ↦ elim (primary_name drm_fd) [ none ↦ minus_one | some name ↦ open_node name ]
]
