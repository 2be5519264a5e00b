-- ===== src/Egl/Kept.antt =====
-- The texture formats of a renderer through the steps of egl_init of westfield-egl.c.
use westfield.Drm.Intersection.{returned}
use westfield.Drm.Shape.{IsValid}
use westfield.Egl.Display.{
  query_device_string, query_display_attrib, Platform, EglState, EglAnswers, egl_create, EglStep,
  egl_init_display, query_device, can_make_context, display_extensions, set_formats, driver_of,
  query_formats, query_modifiers, is_empty,
}
use westfield.Egl.Formats.{get_egl_dmabuf_formats}
use westfield.Egl.Names.{has_extension, img_context_priority}
use westfield.Egl.Setup.{
  EglResult, make_context, context_attribs, after_device, after_gbm, egl_init,
}
use westfield.Egl.Shaped.{init_dmabuf_formats-IsValid}
use westfield.Egl.Settled.{ok-cases}
use westfield.Feedback.Decode.{Checked-cases}
use westfield.Prelude.{
  ℕ, ℤ, ◌≡◌, inl, inr, Bool, not, ◌&&◌, some, List, Bool-cases, Option-cases, arith,
}

-- The texture formats of a state are a valid set.
abbrev pub HasValid : EglState → Type 0
HasValid s = IsValid s.formats.texture

query_device-formats :
    (answers : EglAnswers) (display : ℕ) (s s' : EglState)
    → query_device answers display s ≡ returned (some s')
    → s'.formats ≡ s.formats
unfolding query_device
query_device-formats answers display s s' h = elim (Bool-cases s.has_device_query) [
  | inr q ↦ ground arith
  | inl q ↦ elim (Bool-cases (s.loaded query_display_attrib)) [
    | inr l ↦ absurd (ground arith)
    | inl l ↦ elim (Option-cases (answers.device_attrib display)) [
      | inl e ↦ absurd (ground arith)
      | inr (device, e) ↦ elim (Bool-cases (s.loaded query_device_string)) [
        | inr m ↦ absurd (ground arith)
        | inl m ↦ elim (Option-cases (answers.device_exts device)) [
          | inl x ↦ absurd (ground arith)
          | inr (exts, x) ↦ ground arith
        ]
      ]
    ]
  ]
]

pub egl_create-formats :
    (answers : EglAnswers) (s s' : EglState)
    → egl_create answers s ≡ returned (some s')
    → s'.formats ≡ s.formats
unfolding egl_create
egl_create-formats answers s s' h = elim (Option-cases answers.client_exts) [
  | inl e ↦ absurd (ground arith)
  | inr (exts, e) ↦ ground arith
]

make_context-HasValid :
    (answers : EglAnswers) (display : ℕ) (step : EglStep)
    → HasValid step.state
    → HasValid (make_context answers display step).state
unfolding make_context
make_context-HasValid answers display step v = elim (ok-cases step.ok) [
  | inl e ↦ rw (e, make_context) v
  | inr (inr e) ↦ rw (e, make_context) v
  | inr (inl e) ↦
      let attribs = context_attribs step.state.has_priority in
      elim (Option-cases (answers.create_context display answers.chosen_config attribs)) [
        | inl c ↦ rw (e, c, make_context) v
        | inr (context, c) ↦ rw (e, c, make_context) v
      ]
]

pub after_device-HasValid : (r : EglResult) → HasValid r.state → HasValid (after_device r).state
unfolding after_device
after_device-HasValid r v = elim (ok-cases r.ok) [
  | inl e ↦ rw (e, after_device) v
  | inr (inl e) ↦ rw (e, after_device) v
  | inr (inr e) ↦ rw (e, after_device) v
]

pub after_gbm-HasValid :
    (gbm_fd : ℤ) (gbm_device : ℕ) (r : EglResult)
    → HasValid r.state
    → HasValid (after_gbm gbm_fd gbm_device r).state
unfolding after_gbm
after_gbm-HasValid gbm_fd gbm_device r v = elim (ok-cases r.ok) [
  | inl e ↦ rw (e, after_gbm) v
  | inr (inl e) ↦ rw (e, after_gbm) v
  | inr (inr e) ↦ rw (e, after_gbm) v
]

module _ (mod_invalid mod_linear : ℕ) where
  set_formats-HasValid :
      (answers : EglAnswers) (s : EglState) (fate : List Bool)
      → HasValid s
      → HasValid (set_formats mod_invalid mod_linear answers s fate).state
  unfolding set_formats
  set_formats-HasValid answers s fate v =
      let driver = driver_of answers s in
      let queries = s.has_import && s.has_import_modifiers in
      let listed = (get_egl_dmabuf_formats driver answers.fallback_formats fate).0 in
      elim (Bool-cases (queries && not (s.loaded query_formats))) [
        | inl e ↦ rw (e, set_formats) v
        | inr e ↦
            elim (Bool-cases (queries && not (s.loaded query_modifiers) && not (is_empty listed))) [
              | inl d ↦ rw (e, d, set_formats) v
              | inr d ↦
                  rw (e, d, set_formats)
                    (init_dmabuf_formats-IsValid mod_invalid mod_linear driver
                      answers.fallback_formats fate)
            ]
      ]

  egl_init_display-HasValid :
      (answers : EglAnswers) (display : ℕ) (s : EglState) (fate : List Bool)
      → HasValid s
      → HasValid (egl_init_display mod_invalid mod_linear answers display s fate).state
  unfolding egl_init_display
  egl_init_display-HasValid answers display s fate v =
      elim (Bool-cases (answers.initialize display)) [
        | inr i ↦ rw (i, egl_init_display) v
        | inl i ↦ elim (Option-cases (answers.display_exts display)) [
          | inl e ↦ rw (i, e, egl_init_display) v
          | inr (exts, e) ↦
              let extended =
                display_extensions answers exts (record s { display = some display }) in
              elim (Checked-cases (query_device answers display extended)) [
                | inl q ↦ rw (i, e, q, egl_init_display) v
                | inr (inl q) ↦ rw (i, e, q, egl_init_display) v
                | inr (inr (queried, q)) ↦
                    let kept : HasValid queried =
                      rw (query_device-formats answers display extended queried q) v in
                    elim (Bool-cases (can_make_context exts)) [
                      | inr c ↦ rw (i, e, q, c, egl_init_display) kept
                      | inl c ↦
                          let next : EglState = record queried {
                            has_priority = has_extension exts img_context_priority;
                          } in
                          rw (i, e, q, c, egl_init_display)
                            (set_formats-HasValid answers next fate kept)
                    ]
              ]
        ]
      ]

  pub egl_init-HasValid :
      (answers : EglAnswers) (platform : Platform) (native : ℕ) (s : EglState) (fate : List Bool)
      → HasValid s
      → HasValid (egl_init mod_invalid mod_linear answers platform native s fate).state
  unfolding egl_init
  egl_init-HasValid answers platform native s fate v =
      elim (Option-cases (answers.platform_display platform native)) [
        | inl e ↦ rw (e, egl_init) v
        | inr (display, e) ↦
            let step = egl_init_display mod_invalid mod_linear answers display s fate in
            rw (e, egl_init)
              (make_context-HasValid answers display step
                (egl_init_display-HasValid answers display s fate v))
      ]
