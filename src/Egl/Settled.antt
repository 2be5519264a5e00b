-- ===== src/Egl/Settled.antt =====
-- What the set-up of a renderer in westfield-egl.c opens, and what it leaves open.
use westfield.Drm.Intersection.{Checked, returned, aborted}
use westfield.Dmabuf.Ownership.{bit}
use westfield.Egl.Display.{
  query_device_string, Platform, EglState, EglAnswers, EglStep, egl_init_display, query_device,
  set_formats, display_extensions, can_make_context, software_allowed, query_display_attrib,
}
use westfield.Egl.Names.{has_extension, img_context_priority, mesa_device_software}
use westfield.Feedback.Decode.{Checked-cases}
use westfield.Egl.Setup.{
  EglEffect, open_fd, close_fd, init_display, terminate, create_gbm, destroy_gbm, EglResult,
  context_attribs, make_context, egl_init,
}
use westfield.Prelude.{
  ℕ, ◌+◌, ◌≡◌, refl, ◌∙◌, ◌⊎◌, inl, inr, ℤ, eq_ℤ, Bool, true, false, not, ◌&&◌, Option, some, List,
  [], ◌∷◌, Bool-cases, Option-cases, arith,
}

-- How often a descriptor is opened less how often it is closed, as two counts.
abbrev pub openings : ℤ → List EglEffect → ℕ
openings z [] = 0
openings z (open_fd fd ∷ es) = bit (eq_ℤ z fd) + openings z es
openings z (_ ∷ es) = openings z es

abbrev pub closings : ℤ → List EglEffect → ℕ
closings z [] = 0
closings z (close_fd fd ∷ es) = bit (eq_ℤ z fd) + closings z es
closings z (_ ∷ es) = closings z es

-- The GBM devices made and destroyed, in order.
abbrev pub made_gbms : List EglEffect → List (Option ℕ)
made_gbms [] = []
made_gbms (create_gbm fd g ∷ es) = some g ∷ made_gbms es
made_gbms (_ ∷ es) = made_gbms es

abbrev pub destroyed_gbms : List EglEffect → List (Option ℕ)
destroyed_gbms [] = []
destroyed_gbms (destroy_gbm g ∷ es) = g ∷ destroyed_gbms es
destroyed_gbms (_ ∷ es) = destroyed_gbms es

-- The displays that were to be initialised, and those that were terminated.
abbrev pub shown : List EglEffect → List ℕ
shown [] = []
shown (init_display d ∷ es) = d ∷ shown es
shown (_ ∷ es) = shown es

abbrev pub hidden : List EglEffect → List ℕ
hidden [] = []
hidden (terminate d ∷ es) = d ∷ hidden es
hidden (_ ∷ es) = hidden es

-- What egl_init does: there is no display, or one that stays, or one that is terminated at once.
pub record Inits (s : EglState) (r : EglResult) : Type 0 where
  pub gbm_kept : r.state.gbm_device ≡ s.gbm_device
  pub outcome :
      ((r.effects ≡ []) × (r.ok ≡ returned false))
      ⊎ (((d : ℕ) × (r.effects ≡ init_display d ∷ [])
            × (r.state.display ≡ some d)
            × (r.ok ≡ returned true → (c : ℕ) × (r.state.context ≡ some c)))
          ⊎ ((d : ℕ) × (r.effects ≡ init_display d ∷ terminate d ∷ [])
              × (r.state.display ≡ some d)
              × (r.ok ≡ returned false)))

-- The display that a step of egl_init_display leaves.
pub record Shows (display : ℕ) (s : EglState) (step : EglStep) : Type 0 where
  pub display_set : step.state.display ≡ some display
  pub gbm_kept : step.state.gbm_device ≡ s.gbm_device

-- What egl_init_display does not touch.
abbrev Kept : EglState → EglState → Type 0
Kept s s' = (s'.display ≡ s.display) × (s'.gbm_device ≡ s.gbm_device)

query_device-Kept :
    (answers : EglAnswers) (display : ℕ) (s s' : EglState)
    → query_device answers display s ≡ returned (some s')
    → Kept s s'
unfolding query_device
query_device-Kept answers display s s' h = elim (Bool-cases s.has_device_query) [
  | inr q ↦ let same : s' ≡ s = ground arith in rw same (refl, refl)
  | inl q ↦ elim (Bool-cases (s.loaded query_display_attrib)) [
    | inr l ↦ absurd (ground arith)
    | inl l ↦ elim (Option-cases (answers.device_attrib display)) [
      | inl e ↦ absurd (ground arith)
      | inr (device, e) ↦ elim (Bool-cases (s.loaded query_device_string)) [
        | inr m ↦ absurd (ground arith)
        | inl m ↦ elim (Option-cases (answers.device_exts device)) [
          | inl x ↦ absurd (ground arith)
          | inr (exts, x) ↦
              elim (Bool-cases
                (has_extension exts mesa_device_software && not (software_allowed answers))) [
                  | inl w ↦ absurd (ground arith)
                  | inr w ↦ (ground arith, ground arith)
                ]
        ]
      ]
    ]
  ]
]

pub ok-cases : (x : Checked Bool) → (x ≡ aborted) ⊎ ((x ≡ returned true) ⊎ (x ≡ returned false))
ok-cases aborted = inl refl
ok-cases (returned true) = inr (inl refl)
ok-cases (returned false) = inr (inr refl)

make_context-Inits :
    (answers : EglAnswers) (display : ℕ) (s : EglState) (step : EglStep)
    → Shows display s step
    → Inits s (make_context answers display step)
unfolding make_context
make_context-Inits answers display s step shows = elim (ok-cases step.ok) [
  | inl e ↦
      rw (e, make_context)
        (record {
          gbm_kept = shows.gbm_kept;
          outcome = inr (inl (display, refl, shows.display_set, λ h. absurd (ground arith)));
        })
  | inr (inr e) ↦
      rw (e, make_context)
        (record {
          gbm_kept = shows.gbm_kept;
          outcome = inr (inr (display, refl, shows.display_set, refl));
        })
  | inr (inl e) ↦
      let attribs = context_attribs step.state.has_priority in
      elim (Option-cases (answers.create_context display answers.chosen_config attribs)) [
        | inl c ↦
            rw (e, c, make_context)
              (record {
                gbm_kept = shows.gbm_kept;
                outcome = inr (inl (display, refl, shows.display_set, λ h. absurd (ground arith)));
              })
        | inr (context, c) ↦
            rw (e, c, make_context)
              (record {
                gbm_kept = shows.gbm_kept;
                outcome = inr (inl (display, refl, shows.display_set, λ h. (context, refl)));
              })
      ]
]

module _ (mod_invalid mod_linear : ℕ) where
  set_formats-Kept :
      (answers : EglAnswers) (s : EglState) (fate : List Bool)
      → Kept s (set_formats mod_invalid mod_linear answers s fate).state
  unfolding set_formats
  set_formats-Kept answers s fate = (ground arith, ground arith)

  egl_init_display-Shows :
      (answers : EglAnswers) (display : ℕ) (s : EglState) (fate : List Bool)
      → Shows display s (egl_init_display mod_invalid mod_linear answers display s fate)
  unfolding egl_init_display
  egl_init_display-Shows answers display s fate = elim (Bool-cases (answers.initialize display)) [
    | inr i ↦ rw (i, egl_init_display) (record { display_set = refl; gbm_kept = refl })
    | inl i ↦ elim (Option-cases (answers.display_exts display)) [
      | inl e ↦ rw (i, e, egl_init_display) (record { display_set = refl; gbm_kept = refl })
      | inr (exts, e) ↦
          let extended = display_extensions answers exts (record s { display = some display }) in
          elim (Checked-cases (query_device answers display extended)) [
            | inl q ↦
                rw (i, e, q, egl_init_display) (record { display_set = refl; gbm_kept = refl })
            | inr (inl q) ↦
                rw (i, e, q, egl_init_display) (record { display_set = refl; gbm_kept = refl })
            | inr (inr (queried, q)) ↦
                let kept = query_device-Kept answers display extended queried q in
                let next : EglState = record queried {
                  has_priority = has_extension exts img_context_priority;
                } in
                let set = set_formats-Kept answers next fate in
                elim (Bool-cases (can_make_context exts)) [
                  | inl c ↦
                      rw (i, e, q, c, egl_init_display)
                        (record { display_set = set.0 ∙ kept.0; gbm_kept = set.1 ∙ kept.1 })
                  | inr c ↦
                      rw (i, e, q, c, egl_init_display)
                        (record { display_set = kept.0; gbm_kept = kept.1 })
                ]
          ]
    ]
  ]

  pub egl_init-Inits :
      (answers : EglAnswers) (platform : Platform) (native : ℕ) (s : EglState) (fate : List Bool)
      → Inits s (egl_init mod_invalid mod_linear answers platform native s fate)
  unfolding egl_init
  egl_init-Inits answers platform native s fate =
      elim (Option-cases (answers.platform_display platform native)) [
        | inl e ↦ rw (e, egl_init) (record { gbm_kept = refl; outcome = inl (refl, refl) })
        | inr (display, e) ↦
            let step = egl_init_display mod_invalid mod_linear answers display s fate in
            rw (e, egl_init)
              (make_context-Inits answers display s step
                (egl_init_display-Shows answers display s fate))
      ]
