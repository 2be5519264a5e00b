-- ===== src/Egl/Display.antt =====
-- The display and the context: load_egl_proc, egl_create, egl_init_display and egl_init of
-- westfield-egl.c. The answers of the EGL driver are arguments; displays, contexts and configurations
-- are numbers. Calling a function that could not be loaded is `aborted`.
use westfield.Drm.Intersection.{Checked, returned, aborted}
use westfield.Drm.FormatSet.{empty_set}
use westfield.Egl.Extensions.{eq_string}
use westfield.Egl.Formats.{Driver, DmabufFormats, get_egl_dmabuf_formats, init_dmabuf_formats}
use westfield.Egl.Names.{
  has_extension, ext_platform_base, khr_platform_gbm, ext_platform_device, ext_device_base,
  ext_device_enumeration, ext_device_query, khr_debug, khr_image_base, ext_image_dma_buf_import,
  ext_image_dma_buf_import_modifiers, mesa_device_software, ext_device_drm,
  ext_device_drm_render_node, khr_no_config_context, mesa_configless_context,
  khr_surfaceless_context, img_context_priority,
}
use westfield.Prelude.{
  ℕ, Bool, true, false, not, ◌&&◌, ◌||◌, Option, none, some, List, [], ◌∷◌, if◌then◌else◌,
}

-- The functions that load_egl_proc looks up.
pub data Proc : Type 0 where
  get_platform_display create_image destroy_image query_formats query_modifiers : Proc
  debug_message_control query_display_attrib query_device_string query_devices : Proc

pub data Platform : Type 0 where
  platform_device platform_gbm : Platform

-- What is passed to eglCreateContext.
pub data Attrib : Type 0 where
  context_client_version context_priority_level priority_high attrib_none : Attrib
  value : ℕ → Attrib

-- struct westfield_egl: which extensions and functions there are, and the rest of its fields.
pub record EglState : Type 0 where
  pub has_image_base : Bool
  pub has_import : Bool
  pub has_import_modifiers : Bool
  pub has_priority : Bool
  pub has_device_drm : Bool
  pub has_device_drm_render_node : Bool
  pub has_device_query : Bool
  pub has_platform_gbm : Bool
  pub has_platform_device : Bool
  pub loaded : Proc → Bool
  pub display : Option ℕ
  pub context : Option ℕ
  pub config : ℕ
  pub device : Option ℕ
  pub gbm_device : Option ℕ
  pub formats : DmabufFormats

-- What the EGL driver and libdrm answer. `proc` says whether eglGetProcAddress finds a function, and
-- `allow_software` is the value of RENDERER_ALLOW_SOFTWARE.
pub record EglAnswers : Type 0 where
  pub client_exts : Option (List ℕ)
  pub proc : Proc → Bool
  pub bind_api : Bool
  pub platform_display : Platform → ℕ → Option ℕ
  pub initialize : ℕ → Bool
  pub display_exts : ℕ → Option (List ℕ)
  pub device_attrib : ℕ → Option ℕ
  pub device_exts : ℕ → Option (List ℕ)
  pub allow_software : Option (List ℕ)
  pub driver : Driver
  pub fallback_formats : List ℕ
  pub chosen_config : ℕ
  pub create_context : ℕ → ℕ → List Attrib → Option ℕ

abbrev pub fresh_egl : EglState
fresh_egl = record {
  has_image_base = false;
  has_import = false;
  has_import_modifiers = false;
  has_priority = false;
  has_device_drm = false;
  has_device_drm_render_node = false;
  has_device_query = false;
  has_platform_gbm = false;
  has_platform_device = false;
  loaded = λ p. false;
  display = none;
  context = none;
  config = 0;
  device = none;
  gbm_device = none;
  formats = record { texture = empty_set; render = empty_set; has_modifiers = false };
}

-- What egl_create sets from the client extensions.
abbrev pub client_extensions : EglAnswers → List ℕ → EglState → EglState
client_extensions answers exts s =
    let enumerates =
      has_extension exts ext_device_base || has_extension exts ext_device_enumeration in
    let queries = has_extension exts ext_device_base || has_extension exts ext_device_query in
    record s {
      has_platform_gbm = has_extension exts khr_platform_gbm;
      has_platform_device = has_extension exts ext_platform_device;
      has_device_query = queries;
      loaded = λ p. elim p [
        | get_platform_display ↦ true
        | query_devices ↦ enumerates && answers.proc query_devices
        | query_device_string ↦ queries && answers.proc query_device_string
        | query_display_attrib ↦ queries && answers.proc query_display_attrib
        | debug_message_control ↦ has_extension exts khr_debug && answers.proc debug_message_control
        | _ ↦ false
      ];
    }

-- The state, unless -1 is returned.
unfoldable pub egl_create : EglAnswers → EglState → Checked (Option EglState)
egl_create answers s = elim answers.client_exts [
  | none ↦ returned none
  | some exts ↦
      if has_extension exts ext_platform_base && answers.proc get_platform_display
      then if has_extension exts khr_debug && not (answers.proc debug_message_control)
        then aborted
        else if answers.bind_api
        then returned (some (client_extensions answers exts s))
        else returned none
      else returned none
]

-- What egl_init_display sets from the display extensions.
abbrev pub display_extensions : EglAnswers → List ℕ → EglState → EglState
display_extensions answers exts s =
    let image_base = has_extension exts khr_image_base in
    let modifiers = has_extension exts ext_image_dma_buf_import_modifiers in
    record s {
      has_image_base = image_base;
      has_import = has_extension exts ext_image_dma_buf_import;
      has_import_modifiers = modifiers;
      loaded = λ p. elim p [
        | create_image ↦ image_base && answers.proc create_image
        | destroy_image ↦ image_base && answers.proc destroy_image
        | query_formats ↦ modifiers && answers.proc query_formats
        | query_modifiers ↦ modifiers && answers.proc query_modifiers
        | other ↦ s.loaded other
      ];
    }

-- Software rendering is used only if the environment asks for it.
abbrev pub software_allowed : EglAnswers → Bool
software_allowed answers = elim answers.allow_software [
  | none ↦ false
  | some v ↦ eq_string v (49 ∷ [])
]

-- The part for EXT_device_query: the state, unless false is returned.
unfoldable pub query_device : EglAnswers → ℕ → EglState → Checked (Option EglState)
query_device answers display s =
    if s.has_device_query
    then if s.loaded query_display_attrib
      then elim (answers.device_attrib display) [
        | none ↦ returned none
        | some device ↦
            if s.loaded query_device_string
            then elim (answers.device_exts device) [
              | none ↦ returned none
              | some exts ↦
                  if has_extension exts mesa_device_software && not (software_allowed answers)
                  then returned none
                  else returned (
                      some (record s {
                        device = some device;
                        has_device_drm = has_extension exts ext_device_drm;
                        has_device_drm_render_node = has_extension exts ext_device_drm_render_node;
                      }))
            ]
            else aborted
      ]
      else aborted
    else returned (some s)

-- The display extensions that a context needs.
abbrev pub can_make_context : List ℕ → Bool
can_make_context exts =
    (has_extension exts khr_no_config_context || has_extension exts mesa_configless_context)
    && has_extension exts khr_surfaceless_context

-- The result of a step of the set-up, and the state after it.
pub record EglStep : Type 0 where
  pub ok : Checked Bool
  pub state : EglState
  pub fate : List Bool

-- The driver that the queries of init_dmabuf_formats meet.
abbrev pub driver_of : EglAnswers → EglState → Driver
driver_of answers s = record answers.driver {
  has_import = s.has_import;
  has_import_modifiers = s.has_import_modifiers;
}

abbrev pub is_empty : Option (List ℕ) → Bool
is_empty none = true
is_empty (some []) = true
is_empty (some (f ∷ fs)) = false

module _ (mod_invalid mod_linear : ℕ) where
  -- init_dmabuf_formats, which calls the two query functions where the extensions are there.
  unfoldable pub set_formats : EglAnswers → EglState → List Bool → EglStep
  set_formats answers s fate =
      let driver = driver_of answers s in
      let queries = s.has_import && s.has_import_modifiers in
      let listed = (get_egl_dmabuf_formats driver answers.fallback_formats fate).0 in
      let (formats, rest) =
        init_dmabuf_formats mod_invalid mod_linear driver answers.fallback_formats fate in
      if queries && not (s.loaded query_formats)
      then record { ok = aborted; state = s; fate = fate }
      else if queries && not (s.loaded query_modifiers) && not (is_empty listed)
      then record { ok = aborted; state = s; fate = fate }
      else record { ok = returned true; state = record s { formats = formats }; fate = rest }

  unfoldable pub egl_init_display : EglAnswers → ℕ → EglState → List Bool → EglStep
  egl_init_display answers display s fate =
      let shown : EglState = record s { display = some display } in
      if answers.initialize display
      then elim (answers.display_exts display) [
        | none ↦ record { ok = returned false; state = shown; fate = fate }
        | some exts ↦
            let extended = display_extensions answers exts shown in
            elim (query_device answers display extended) [
              | aborted ↦ record { ok = aborted; state = extended; fate = fate }
              | returned none ↦ record { ok = returned false; state = extended; fate = fate }
              | returned (some queried) ↦
                  if can_make_context exts
                  then set_formats answers
                      (record queried { has_priority = has_extension exts img_context_priority })
                      fate
                  else record { ok = returned false; state = queried; fate = fate }
            ]
      ]
      else record { ok = returned false; state = shown; fate = fate }
