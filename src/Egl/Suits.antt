-- ===== src/Egl/Suits.antt =====
-- The displays and devices on which egl_init_display of westfield-egl.c succeeds and fails.
use westfield.Drm.Intersection.{returned}
use westfield.Egl.Display.{
  EglState, EglAnswers, EglStep, query_display_attrib, query_device_string, query_device,
  software_allowed, can_make_context, display_extensions, set_formats, egl_init_display,
}
use westfield.Egl.Extensions.{HasWord, check_egl_ext_lem, eq_string-eq}
use westfield.Egl.Names.{
  Extension, extension_name, has_extension, img_context_priority, mesa_device_software,
  khr_no_config_context, mesa_configless_context, khr_surfaceless_context,
}
use westfield.Feedback.Decode.{Checked-cases}
use westfield.Prelude.{
  ℕ, ◌≡◌, ◌≢◌, ◌↔◌, ◌⊎◌, ◌∙◌, refl, inl, inr, Bool, true, false, none, some, List, [], ◌∷◌, length,
  Bool-cases, Option-cases, arith,
}

abbrev pub Has : List ℕ → Extension → Type 0
Has exts e = HasWord true exts (extension_name e)

-- The device of a display may be used: it is no software device, unless RENDERER_ALLOW_SOFTWARE is
-- "1".
pub record DeviceUsable (answers : EglAnswers) (display : ℕ) : Type 0 where
  pub number : ℕ
  pub reported : answers.device_attrib display ≡ some number
  pub exts : List ℕ
  pub queried : answers.device_exts number ≡ some exts
  pub software : Has exts mesa_device_software → answers.allow_software ≡ some (49 ∷ [])

-- A display with what a context needs: one without a configuration, and without a surface.
pub record Usable (answers : EglAnswers) (display : ℕ) (queries : Bool) : Type 0 where
  pub started : answers.initialize display ≡ true
  pub exts : List ℕ
  pub queried : answers.display_exts display ≡ some exts
  pub no_config : Has exts khr_no_config_context ⊎ Has exts mesa_configless_context
  pub surfaceless : Has exts khr_surfaceless_context
  pub device : queries ≡ true → DeviceUsable answers display

-- What egl_init_display makes of a display.
pub record Suits (answers : EglAnswers) (display : ℕ) (queries : Bool) (step : EglStep)
    : Type 0 where
  pub accepted :
      step.ok ≡ returned true
      → Usable answers display queries
        × (queries ≡ true → step.state.device ≡ answers.device_attrib display)
  pub refused : step.ok ≡ returned false → ¬ Usable answers display queries

has_extension-Has : (exts : List ℕ) (e : Extension) → (has_extension exts e ≡ true) ↔ Has exts e
unfolding has_extension
has_extension-Has exts e = check_egl_ext_lem (length exts) exts (extension_name e) (omega arith)

software-one :
    (answers : EglAnswers)
    → (software_allowed answers ≡ true) ↔ (answers.allow_software ≡ some (49 ∷ []))
software-one answers = elim (Option-cases answers.allow_software) [
  | inl e ↦ ((λ h. absurd (ground arith)), (λ h. absurd (ground arith)))
  | inr (v, e) ↦ (
    (λ h. let same : v ≡ 49 ∷ [] = eq_string-eq v (49 ∷ []) (ground arith) in rw (e, same) refl),
    (λ h. ground arith),
  )
]

context-Has :
    (exts : List ℕ)
    → (can_make_context exts ≡ true) ↔ (
        (Has exts khr_no_config_context ⊎ Has exts mesa_configless_context)
        × Has exts khr_surfaceless_context)
context-Has exts =
    let one = has_extension-Has exts khr_no_config_context in
    let two = has_extension-Has exts mesa_configless_context in
    let three = has_extension-Has exts khr_surfaceless_context in
    (
      (λ h. (
        elim (Bool-cases (has_extension exts khr_no_config_context)) [
          | inl e ↦ inl (one.0 e)
          | inr e ↦ inr (two.0 (ground arith))
        ],
        three.0 (ground arith),
      )),
      (λ (config, surfaceless).
          let last : has_extension exts khr_surfaceless_context ≡ true = three.1 surfaceless in
          elim config [
            | inl c ↦ let first = one.1 c in ground arith
            | inr c ↦ let first = two.1 c in ground arith
          ]),
    )

-- The part about the device, where it goes on.
query_device-usable :
    (answers : EglAnswers) (display : ℕ) (s s' : EglState)
    → query_device answers display s ≡ returned (some s')
    → s.has_device_query ≡ true
    → DeviceUsable answers display × (s'.device ≡ answers.device_attrib display)
unfolding query_device
query_device-usable answers display s s' h q = elim (Bool-cases (s.loaded query_display_attrib)) [
  | inr l ↦ absurd (ground arith)
  | inl l ↦ elim (Option-cases (answers.device_attrib display)) [
    | inl e ↦ absurd (ground arith)
    | inr (device, e) ↦ elim (Bool-cases (s.loaded query_device_string)) [
      | inr m ↦ absurd (ground arith)
      | inl m ↦ elim (Option-cases (answers.device_exts device)) [
        | inl x ↦ absurd (ground arith)
        | inr (exts, x) ↦ (
          record {
            number = device;
            reported = e;
            exts = exts;
            queried = x;
            software = λ w.
                let is_software = (has_extension-Has exts mesa_device_software).1 w in
                (software-one answers).0 (ground arith);
          },
          ground arith,
        )
      ]
    ]
  ]
]

-- It does not refuse a device that may be used.
query_device-accepts :
    (answers : EglAnswers) (display : ℕ) (s : EglState)
    → (s.has_device_query ≡ true → DeviceUsable answers display)
    → query_device answers display s ≢ returned none
unfolding query_device
query_device-accepts answers display s usable h = elim (Bool-cases s.has_device_query) [
  | inr q ↦ absurd (ground arith)
  | inl q ↦
      let u = usable q in
      let reported = u.reported in
      let queried = u.queried in
      elim (Bool-cases (has_extension u.exts mesa_device_software)) [
        | inl w ↦
            let allowed =
              (software-one answers).1
                (u.software ((has_extension-Has u.exts mesa_device_software).0 w)) in
            absurd (ground arith)
        | inr w ↦ absurd (ground arith)
      ]
]

module _ (mod_invalid mod_linear : ℕ) where
  set_formats-device :
      (answers : EglAnswers) (s : EglState) (fate : List Bool)
      → (set_formats mod_invalid mod_linear answers s fate).state.device ≡ s.device
  unfolding set_formats
  set_formats-device answers s fate = ground arith

  set_formats-ne-false :
      (answers : EglAnswers) (s : EglState) (fate : List Bool)
      → (set_formats mod_invalid mod_linear answers s fate).ok ≢ returned false
  unfolding set_formats
  set_formats-ne-false answers s fate h = absurd (ground arith)

  accepted :
      (answers : EglAnswers) (display : ℕ) (s : EglState) (fate : List Bool)
      → let step = egl_init_display mod_invalid mod_linear answers display s fate in
        step.ok ≡ returned true
        → Usable answers display s.has_device_query
          × (s.has_device_query ≡ true → step.state.device ≡ answers.device_attrib display)
  unfolding egl_init_display
  accepted answers display s fate h = elim (Bool-cases (answers.initialize display)) [
    | inr i ↦ absurd (ground arith)
    | inl i ↦ elim (Option-cases (answers.display_exts display)) [
      | inl e ↦ absurd (ground arith)
      | inr (exts, e) ↦
          let extended = display_extensions answers exts (record s { display = some display }) in
          elim (Checked-cases (query_device answers display extended)) [
            | inl q ↦ absurd (ground arith)
            | inr (inl q) ↦ absurd (ground arith)
            | inr (inr (queried, q)) ↦
                let next : EglState = record queried {
                  has_priority = has_extension exts img_context_priority;
                } in
                elim (Bool-cases (can_make_context exts)) [
                  | inr c ↦ absurd (ground arith)
                  | inl c ↦
                      let run : egl_init_display mod_invalid mod_linear answers display s fate
                          ≡ set_formats mod_invalid mod_linear answers next fate =
                        rw (i, e, q, c, egl_init_display) refl in
                      let (config, surfaceless) = (context-Has exts).0 c in
                      rw run (
                        record {
                          started = i;
                          exts = exts;
                          queried = e;
                          no_config = config;
                          surfaceless = surfaceless;
                          device =
                              λ d. (query_device-usable answers display extended queried q d).0;
                        },
                        λ d.
                            set_formats-device answers next fate
                            ∙ (query_device-usable answers display extended queried q d).1,
                      )
                ]
          ]
    ]
  ]

  refused :
      (answers : EglAnswers) (display : ℕ) (s : EglState) (fate : List Bool)
      → (egl_init_display mod_invalid mod_linear answers display s fate).ok ≡ returned false
      → ¬ Usable answers display s.has_device_query
  unfolding egl_init_display
  refused answers display s fate h u =
      let i = u.started in
      let e = u.queried in
      let exts = u.exts in
      let c = (context-Has exts).1 (u.no_config, u.surfaceless) in
      let extended = display_extensions answers exts (record s { display = some display }) in
      elim (Checked-cases (query_device answers display extended)) [
        | inl q ↦ absurd (ground arith)
        | inr (inl q) ↦ query_device-accepts answers display extended u.device q
        | inr (inr (queried, q)) ↦
            let next : EglState = record queried {
              has_priority = has_extension exts img_context_priority;
            } in
            let run : egl_init_display mod_invalid mod_linear answers display s fate
                ≡ set_formats mod_invalid mod_linear answers next fate =
              rw (i, e, q, c, egl_init_display) refl in
            set_formats-ne-false answers next fate (rw run at h)
      ]

  -- Where egl_init_display succeeds, the display was initialised, its extensions allow a context
  -- without a configuration and without a surface, and, if the driver can be asked about devices, it
  -- has a device that can be queried and that is no software device unless RENDERER_ALLOW_SOFTWARE
  -- is "1"; and the renderer's device is that one. Where it fails, one of these does not hold.
  pub egl_init_display-Suits :
      (answers : EglAnswers) (display : ℕ) (s : EglState) (fate : List Bool)
      → Suits answers display s.has_device_query
          (egl_init_display mod_invalid mod_linear answers display s fate)
  egl_init_display-Suits answers display s fate = record {
    accepted = accepted answers display s fate;
    refused = refused answers display s fate;
  }
