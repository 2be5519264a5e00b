-- ===== src/Egl/Renderer.antt =====
-- A renderer of westfield-egl.c from westfield_egl_new to westfield_egl_finalize.
use westfield.Drm.Intersection.{returned, aborted}
use westfield.Dmabuf.Ownership.{bit}
use westfield.Egl.Balance.{Undone, Running, Undone-nothing}
use westfield.Egl.Display.{EglState, fresh_egl}
use westfield.Egl.Setup.{
  EglEffect, open_fd, close_fd, init_display, terminate, create_gbm, destroy_gbm, SetupAnswers,
  westfield_egl_egl_create_with_drm_fd, westfield_egl_new, westfield_egl_finalize,
}
use westfield.Egl.Settled.{openings, closings, made_gbms, destroyed_gbms, shown, hidden, ok-cases}
use westfield.Prelude.{
  ℕ, ◌+◌, ◌≡◌, refl, sym, ◌∙◌, ◌⊎◌, inl, inr, ℤ, is_nonneg, eq_ℤ, pos, Bool, not, ◌&&◌, none, some,
  List, [], ◌∷◌, ◌++◌, alloc, Bool-cases, arith,
}
use westfield.Egl.Leaves.{create_with_drm_fd-Leaves}

-- A last close of a descriptor.
closings-push :
    (z fd : ℤ) (es : List EglEffect)
    → closings z (es ++ close_fd fd ∷ []) ≡ closings z es + bit (eq_ℤ z fd)
closings-push z fd [] = omega arith
closings-push z fd (close_fd x ∷ es) = omega (arith, closings-push z fd es)
closings-push z fd (_ ∷ es) = closings-push z fd es

openings-push :
    (z fd : ℤ) (es : List EglEffect) → openings z (es ++ close_fd fd ∷ []) ≡ openings z es
openings-push z fd [] = refl
openings-push z fd (open_fd x ∷ es) = omega (arith, openings-push z fd es)
openings-push z fd (_ ∷ es) = openings-push z fd es

made_gbms-push : (fd : ℤ) (es : List EglEffect) → made_gbms (es ++ close_fd fd ∷ []) ≡ made_gbms es
made_gbms-push fd [] = refl
made_gbms-push fd (create_gbm x g ∷ es) = ground (arith, made_gbms-push fd es)
made_gbms-push fd (_ ∷ es) = made_gbms-push fd es

destroyed_gbms-push :
    (fd : ℤ) (es : List EglEffect) → destroyed_gbms (es ++ close_fd fd ∷ []) ≡ destroyed_gbms es
destroyed_gbms-push fd [] = refl
destroyed_gbms-push fd (destroy_gbm g ∷ es) = ground (arith, destroyed_gbms-push fd es)
destroyed_gbms-push fd (_ ∷ es) = destroyed_gbms-push fd es

shown-push : (fd : ℤ) (es : List EglEffect) → shown (es ++ close_fd fd ∷ []) ≡ shown es
shown-push fd [] = refl
shown-push fd (init_display d ∷ es) = ground (arith, shown-push fd es)
shown-push fd (_ ∷ es) = shown-push fd es

hidden-push : (fd : ℤ) (es : List EglEffect) → hidden (es ++ close_fd fd ∷ []) ≡ hidden es
hidden-push fd [] = refl
hidden-push fd (terminate d ∷ es) = ground (arith, hidden-push fd es)
hidden-push fd (_ ∷ es) = hidden-push fd es

around-Undone :
    (fd : ℤ) (es : List EglEffect) → Undone es → Undone (open_fd fd ∷ (es ++ close_fd fd ∷ []))
around-Undone fd es undone = record {
  fds = λ z. omega (arith, closings-push z fd es, openings-push z fd es, undone.fds z);
  gbms = destroyed_gbms-push fd es ∙ undone.gbms ∙ sym (made_gbms-push fd es);
  displays = λ d. rw (shown-push fd es, hidden-push fd es) (undone.displays d);
}

-- A renderer with its descriptor, and the effects up to here: every display but its own is
-- terminated, and what is left open is its descriptor and, on the platform of GBM, that of the GBM
-- device.
pub record NewRunning (drm_fd : ℤ) (s : EglState) (es : List EglEffect) : Type 0 where
  pub display : ℕ
  pub context : ℕ
  pub displays : (shown es ≡ display ∷ []) × (hidden es ≡ [])
  pub display_set : s.display ≡ some display
  pub context_set : s.context ≡ some context
  pub platform :
      ((s.gbm_device ≡ none) × ((z : ℤ) → openings z es ≡ closings z es + bit (eq_ℤ z drm_fd)))
      ⊎ ((g : ℕ) × (gbm_fd : ℤ) × (s.gbm_device ≡ some g)
          × (made_gbms es ≡ some g ∷ [])
          × (destroyed_gbms es ≡ [])
          × ((z : ℤ) → openings z es ≡ closings z es + bit (eq_ℤ z drm_fd) + bit (eq_ℤ z gbm_fd)))

Running-NewRunning :
    (fd : ℤ) (s : EglState) (es : List EglEffect) → Running s es → NewRunning fd s (open_fd fd ∷ es)
Running-NewRunning fd s es run = record {
  display = run.display;
  context = run.context;
  displays = run.displays;
  display_set = run.display_set;
  context_set = run.context_set;
  platform = elim run.platform [
    | inl d ↦ inl (d.gbm, λ z. omega (arith, d.fds z))
    | inr g ↦ inr (g.device, g.gbm_fd, g.gbm, g.gbms.0, g.gbms.1, λ z. omega (arith, g.fds z))
  ];
}

module _ (mod_invalid mod_linear : ℕ) (answers : SetupAnswers) where
  -- If westfield_egl_new returns NULL, nothing is left: each descriptor that was opened is closed, a
  -- GBM device that was made is destroyed, and a display that was to be initialised is terminated.
  -- If it returns a renderer, this has a display, which was not terminated, and a context, and what
  -- is open besides is its descriptor and, on the platform of GBM, the GBM device with its own.
  pub westfield_egl_new-NewRunning :
      (path : List ℕ) (fate : List Bool)
      → let r = westfield_egl_new mod_invalid mod_linear answers path fate in
        (r.renderer ≡ returned none → Undone r.effects)
        × ((drm_fd : ℤ) (s : EglState)
            → r.renderer ≡ returned (some (drm_fd, s))
            → NewRunning drm_fd s r.effects)
  unfolding westfield_egl_new
  westfield_egl_new-NewRunning path fate =
      let fd = answers.open_path path in
      let call = westfield_egl_new mod_invalid mod_linear answers path fate in
      let r =
        westfield_egl_egl_create_with_drm_fd mod_invalid mod_linear answers fresh_egl fd
          (alloc fate).1 in
      let leaves = create_with_drm_fd-Leaves mod_invalid mod_linear answers fd (alloc fate).1 in
      elim (Bool-cases (is_nonneg fd)) [
        | inr n ↦
            let run : call ≡ record { renderer = returned none; effects = [] } = ground arith in
            rw run (λ h. Undone-nothing, λ d s h. absurd (ground arith))
        | inl n ↦ elim (Bool-cases ((alloc fate).0 && not (eq_ℤ fd (pos 0)))) [
          | inr g ↦
              let run : call ≡ record { renderer = aborted; effects = open_fd fd ∷ [] } =
                ground arith in
              rw run (λ h. absurd (ground arith), λ d s h. absurd (ground arith))
          | inl g ↦ elim (ok-cases r.ok) [
            | inl e ↦
                let run : call.renderer ≡ aborted = ground arith in
                (λ h. absurd (ground arith), λ d s h. absurd (ground arith))
            | inr (inr e) ↦
                let run : call ≡ record {
                  renderer = returned none;
                  effects = open_fd fd ∷ (r.effects ++ close_fd fd ∷ []);
                } =
                  ground arith in
                rw run (
                  λ h. around-Undone fd r.effects (leaves.failed e),
                  λ d s h. absurd (ground arith),
                )
            | inr (inl e) ↦
                let run : call ≡ record {
                  renderer = returned (some (fd, r.state));
                  effects = open_fd fd ∷ r.effects;
                } =
                  ground arith in
                rw run (
                  λ h. absurd (ground arith),
                  λ d s h.
                      let same_fd : d ≡ fd = ground arith in
                      let same : s ≡ r.state = ground arith in
                      rw (same_fd, same) (Running-NewRunning fd r.state r.effects (leaves.made e)),
                )
          ]
        ]
      ]

-- What westfield_egl_finalize makes of a renderer that westfield_egl_new returned. On the platform of
-- GBM it destroys the GBM device and closes the renderer's descriptor, and the descriptor of the GBM
-- device stays open. On the platform of devices every descriptor is closed, but gbm_device_destroy
-- is called with NULL.
pub westfield_egl_finalize-loses :
    (mod_invalid mod_linear : ℕ) (answers : SetupAnswers) (path : List ℕ) (fate : List Bool)
    (drm_fd : ℤ) (s : EglState)
    → (westfield_egl_new mod_invalid mod_linear answers path fate).renderer
      ≡ returned (some (drm_fd, s))
    → let es = (westfield_egl_new mod_invalid mod_linear answers path fate).effects in
      let end = westfield_egl_finalize drm_fd s in
      ((destroyed_gbms end ≡ none ∷ [])
        × ((z : ℤ) → openings z es ≡ closings z es + closings z end))
      ⊎ ((gbm_fd : ℤ) × (destroyed_gbms end ≡ made_gbms es)
          × ((z : ℤ) → openings z es ≡ closings z es + closings z end + bit (eq_ℤ z gbm_fd)))
unfolding westfield_egl_finalize
westfield_egl_finalize-loses mod_invalid mod_linear answers path fate drm_fd s h =
    let new =
      (westfield_egl_new-NewRunning mod_invalid mod_linear answers path fate).1 drm_fd s h in
    elim new.platform [
      | inl (gbm, fds) ↦ inl (rw gbm refl, λ z. omega (arith, fds z))
      | inr (g, gbm_fd, gbm, made, gone, fds) ↦
          inr (gbm_fd, rw (gbm, made) refl, λ z. omega (arith, fds z))
    ]
