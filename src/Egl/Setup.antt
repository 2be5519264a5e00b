-- ===== src/Egl/Setup.antt =====
-- Making and ending a renderer: egl_init, westfield_egl_egl_create_with_drm_fd, westfield_egl_new and
-- westfield_egl_finalize of westfield-egl.c.
use westfield.Drm.Intersection.{Checked, returned, aborted}
use westfield.Egl.Device.{DeviceAnswers, get_egl_device_from_drm_fd, open_render_node}
use westfield.Egl.Display.{
  query_devices, query_device_string, Platform, platform_device, platform_gbm, Attrib,
  context_client_version, context_priority_level, priority_high, attrib_none, value, EglState,
  EglAnswers, fresh_egl, egl_create, EglStep, egl_init_display,
}
use westfield.Prelude.{
  ℕ, ℤ, is_nonneg, eq_ℤ, pos, Bool, true, false, Option, none, some, List, [], ◌∷◌, ◌++◌, alloc,
  if◌then◌else◌,
}

-- What is done to descriptors, displays and devices, in order.
pub data EglEffect : Type 0 where
  open_fd close_fd : ℤ → EglEffect
  init_display terminate make_none_current : ℕ → EglEffect
  create_gbm : ℤ → ℕ → EglEffect
  destroy_gbm : Option ℕ → EglEffect
  release_thread : EglEffect

-- The result of a function, its effects, and the renderer after it.
pub record EglResult : Type 0 where
  pub ok : Checked Bool
  pub state : EglState
  pub effects : List EglEffect
  pub fate : List Bool

-- The answers of libdrm, of open and of gbm_create_device, besides those of EGL. The path that
-- westfield_egl_new opens is asked for apart.
pub record SetupAnswers : Type 0 where
  pub egl : EglAnswers
  pub devices : DeviceAnswers
  pub render_name : ℤ → Option (List ℕ)
  pub primary_name : ℤ → Option (List ℕ)
  pub open_node : List ℕ → ℤ
  pub open_path : List ℕ → ℤ
  pub gbm_create_device : ℤ → Option ℕ

-- The attributes of the context, in an array of five entries.
unfoldable pub context_attribs : Bool → List Attrib
context_attribs high_priority =
    context_client_version
    ∷ value 2
    ∷ ((if high_priority then context_priority_level ∷ priority_high ∷ [] else [])
        ++ attrib_none ∷ [])

-- From an initialised display on. A failure here leaves the display to the caller.
unfoldable pub make_context : EglAnswers → ℕ → EglStep → EglResult
make_context answers display step =
    let s = record step.state { config = answers.chosen_config } in
    elim step.ok [
      | aborted ↦ record {
        ok = aborted;
        state = step.state;
        effects = init_display display ∷ [];
        fate = step.fate;
      }
      | returned false ↦ record {
        ok = returned false;
        state = step.state;
        effects = init_display display ∷ terminate display ∷ [];
        fate = step.fate;
      }
      | returned true ↦
          elim (answers.create_context display answers.chosen_config
            (context_attribs s.has_priority)) [
              | none ↦ record {
                ok = returned false;
                state = s;
                effects = init_display display ∷ [];
                fate = step.fate;
              }
              | some context ↦ record {
                ok = returned true;
                state = record s { context = some context };
                effects = init_display display ∷ [];
                fate = step.fate;
              }
            ]
    ]

-- `if (egl_display) { eglMakeCurrent(...); eglTerminate(...); } eglReleaseThread();`
abbrev pub end_display : Option ℕ → List EglEffect
end_display none = release_thread ∷ []
end_display (some display) = make_none_current display ∷ terminate display ∷ release_thread ∷ []

-- The label `error`.
abbrev pub egl_error : EglState → List EglEffect → List Bool → EglResult
egl_error s effects fate = record {
  ok = returned false;
  state = s;
  effects = effects ++ end_display s.display;
  fate = fate;
}

-- The renderer, unless NULL is returned, and the effects.
pub record NewEgl : Type 0 where
  pub renderer : Checked (Option (ℤ × EglState))
  pub effects : List EglEffect

abbrev pub finish_new : ℤ → EglResult → NewEgl
finish_new fd r = elim r.ok [
  | aborted ↦ record { renderer = aborted; effects = open_fd fd ∷ r.effects }
  | returned false ↦ record {
    renderer = returned none;
    effects = open_fd fd ∷ (r.effects ++ close_fd fd ∷ []);
  }
  | returned true ↦ record {
    renderer = returned (some (fd, r.state));
    effects = open_fd fd ∷ r.effects;
  }
]

-- After egl_init on the platform of devices.
unfoldable pub after_device : EglResult → EglResult
after_device r = elim r.ok [
  | aborted ↦ r
  | returned true ↦ r
  | returned false ↦ egl_error r.state r.effects r.fate
]

-- After egl_init on the platform of GBM.
unfoldable pub after_gbm : ℤ → ℕ → EglResult → EglResult
after_gbm gbm_fd gbm_device r =
    let begun = open_fd gbm_fd ∷ create_gbm gbm_fd gbm_device ∷ r.effects in
    elim r.ok [
      | aborted ↦ record r { effects = begun }
      | returned true ↦ record r { effects = begun }
      | returned false ↦
          egl_error r.state (begun ++ destroy_gbm (some gbm_device) ∷ close_fd gbm_fd ∷ []) r.fate
    ]

module _ (mod_invalid mod_linear : ℕ) where
  unfoldable pub egl_init : EglAnswers → Platform → ℕ → EglState → List Bool → EglResult
  egl_init answers platform native s fate = elim (answers.platform_display platform native) [
    | none ↦ record { ok = returned false; state = s; effects = []; fate = fate }
    | some display ↦
        make_context answers display
          (egl_init_display mod_invalid mod_linear answers display s fate)
  ]

  unfoldable pub create_on_gbm : SetupAnswers → EglState → ℤ → List Bool → EglResult
  create_on_gbm answers s drm_fd fate =
      let gbm_fd =
        open_render_node answers.render_name answers.primary_name answers.open_node drm_fd in
      if s.has_platform_gbm
      then if is_nonneg gbm_fd
        then elim (answers.gbm_create_device gbm_fd) [
          | none ↦ egl_error s (open_fd gbm_fd ∷ close_fd gbm_fd ∷ []) fate
          | some gbm_device ↦ after_gbm gbm_fd gbm_device (
              egl_init answers.egl platform_gbm gbm_device
                (record s { gbm_device = some gbm_device }) fate)
        ]
        else egl_error s [] fate
      else egl_error s [] fate

  -- From the client extensions on.
  unfoldable pub choose_platform : SetupAnswers → EglState → ℤ → List Bool → EglResult
  choose_platform answers s drm_fd fate =
      let found =
        get_egl_device_from_drm_fd answers.devices (s.loaded query_devices)
          (s.loaded query_device_string) drm_fd fate in
      if s.has_platform_device
      then elim found.device [
        | aborted ↦ record { ok = aborted; state = s; effects = []; fate = found.fate }
        | returned (some d) ↦ after_device (egl_init answers.egl platform_device d s found.fate)
        | returned none ↦ create_on_gbm answers s drm_fd found.fate
      ]
      else create_on_gbm answers s drm_fd fate

  unfoldable pub westfield_egl_egl_create_with_drm_fd :
      SetupAnswers → EglState → ℤ → List Bool → EglResult
  westfield_egl_egl_create_with_drm_fd answers s drm_fd fate = elim (egl_create answers.egl s) [
    | aborted ↦ record { ok = aborted; state = s; effects = []; fate = fate }
    | returned none ↦ record { ok = returned false; state = s; effects = []; fate = fate }
    | returned (some created) ↦ choose_platform answers created drm_fd fate
  ]

  -- The result of calloc is not tested; the assertion wants a descriptor that is not 0.
  unfoldable pub westfield_egl_new : SetupAnswers → List ℕ → List Bool → NewEgl
  westfield_egl_new answers device_path fate =
      let (got, rest) = alloc fate in
      let fd = answers.open_path device_path in
      if is_nonneg fd
      then if got
        then if eq_ℤ fd (pos 0)
          then record { renderer = aborted; effects = open_fd fd ∷ [] }
          else finish_new fd (westfield_egl_egl_create_with_drm_fd answers fresh_egl fd rest)
        else record { renderer = aborted; effects = open_fd fd ∷ [] }
      else record { renderer = returned none; effects = [] }

unfoldable pub westfield_egl_finalize : ℤ → EglState → List EglEffect
westfield_egl_finalize drm_fd s = destroy_gbm s.gbm_device ∷ close_fd drm_fd ∷ []
