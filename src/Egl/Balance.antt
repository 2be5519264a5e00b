-- ===== src/Egl/Balance.antt =====
-- westfield_egl_new and westfield_egl_finalize of westfield-egl.c: what is left open.
use westfield.Drm.Intersection.{returned}
use westfield.Dmabuf.Ownership.{bit}
use westfield.Egl.Display.{EglState}
use westfield.Egl.Setup.{
  EglEffect, open_fd, close_fd, create_gbm, destroy_gbm, EglResult, end_display, egl_error,
  after_device, after_gbm,
}
use westfield.Egl.Settled.{
  openings, closings, made_gbms, destroyed_gbms, shown, hidden, Inits, ok-cases,
}
use westfield.Prelude.{
  ℕ, ◌+◌, ◌≡◌, refl, ◌∙◌, ◌⊎◌, inl, inr, ℤ, eq_ℤ, true, false, Option, none, some, List, [], ◌∷◌,
  ◌++◌, elem, Option-cases, arith,
}

-- Nothing is left: every descriptor is closed as often as it was opened, the GBM devices made are
-- destroyed, and a display that was to be initialised is terminated.
pub record Undone (es : List EglEffect) : Type 0 where
  pub fds : (z : ℤ) → closings z es ≡ openings z es
  pub gbms : destroyed_gbms es ≡ made_gbms es
  pub displays : (d : ℕ) → elem d (shown es) ≡ true → elem d (hidden es) ≡ true

-- What is left when a renderer is made: its display, and nothing else on the platform of devices.
pub record OnDevice (s : EglState) (es : List EglEffect) : Type 0 where
  pub gbm : s.gbm_device ≡ none
  pub fds : (z : ℤ) → closings z es ≡ openings z es
  pub gbms : (made_gbms es ≡ []) × (destroyed_gbms es ≡ [])

-- On the platform of GBM, the GBM device and its descriptor.
pub record OnGbm (s : EglState) (es : List EglEffect) : Type 0 where
  pub device : ℕ
  pub gbm_fd : ℤ
  pub gbm : s.gbm_device ≡ some device
  pub fds : (z : ℤ) → openings z es ≡ closings z es + bit (eq_ℤ z gbm_fd)
  pub gbms : (made_gbms es ≡ some device ∷ []) × (destroyed_gbms es ≡ [])

pub record Running (s : EglState) (es : List EglEffect) : Type 0 where
  pub display : ℕ
  pub context : ℕ
  pub displays : (shown es ≡ display ∷ []) × (hidden es ≡ [])
  pub display_set : s.display ≡ some display
  pub context_set : s.context ≡ some context
  pub platform : OnDevice s es ⊎ OnGbm s es

-- What a function of the set-up leaves.
pub record Leaves (r : EglResult) : Type 0 where
  pub failed : r.ok ≡ returned false → Undone r.effects
  pub made : r.ok ≡ returned true → Running r.state r.effects

-- The label `error`, after effects that leave only the display of the state.
pub end_display-Undone : (o : Option ℕ) → Undone (end_display o)
unfolding elem
end_display-Undone none = record {
  fds = λ z. refl;
  gbms = refl;
  displays = λ d h. absurd (ground arith);
}
end_display-Undone (some d) = record {
  fds = λ z. refl;
  gbms = refl;
  displays = λ e h. absurd (ground arith);
}

pub Undone-nothing : Undone []
unfolding elem
Undone-nothing = record { fds = λ z. refl; gbms = refl; displays = λ d h. absurd (ground arith) }

module _ (s : EglState) (r : EglResult) (inits : Inits s r) where
  device_failed : r.ok ≡ returned false → Undone (egl_error r.state r.effects r.fate).effects
  unfolding elem
  device_failed e = elim inits.outcome [
    | inl (es, fails) ↦ rw es (end_display-Undone r.state.display)
    | inr (inl (d, es, display, c)) ↦
        rw (es, display) (record { fds = λ z. refl; gbms = refl; displays = λ x h. ground arith })
    | inr (inr (d, es, display, fails)) ↦
        rw (es, display) (record { fds = λ z. refl; gbms = refl; displays = λ x h. ground arith })
  ]

  device_made : s.gbm_device ≡ none → r.ok ≡ returned true → Running r.state r.effects
  device_made none_yet e = elim inits.outcome [
    | inl (es, fails) ↦ absurd (ground arith)
    | inr (inr (d, es, display, fails)) ↦ absurd (ground arith)
    | inr (inl (d, es, display, c)) ↦
        let (context, set) = c e in
        rw es (record {
          display = d;
          context = context;
          displays = (refl, refl);
          display_set = display;
          context_set = set;
          platform =
              inl
                (record { gbm = inits.gbm_kept ∙ none_yet; fds = λ z. refl; gbms = (refl, refl) });
        })
  ]

  pub after_device-Leaves : s.gbm_device ≡ none → Leaves (after_device r)
  unfolding after_device
  after_device-Leaves none_yet = elim (ok-cases r.ok) [
    | inl e ↦
        rw (e, after_device)
          (record { failed = λ h. absurd (ground arith); made = λ h. absurd (ground arith) })
    | inr (inl e) ↦
        let run : after_device r ≡ r = ground arith in
        rw run (record { failed = λ h. absurd (ground arith); made = λ h. device_made none_yet h })
    | inr (inr e) ↦
        let run : after_device r ≡ egl_error r.state r.effects r.fate = rw (e, after_device) refl in
        rw run (record { failed = λ h. device_failed e; made = λ h. absurd (ground arith) })
  ]

  -- The effects of the platform of GBM around those of egl_init.
  abbrev gbm_begun : ℤ → ℕ → List EglEffect
  gbm_begun gbm_fd g = open_fd gbm_fd ∷ create_gbm gbm_fd g ∷ r.effects

  abbrev gbm_error : ℤ → ℕ → EglResult
  gbm_error gbm_fd g =
      egl_error r.state (gbm_begun gbm_fd g ++ destroy_gbm (some g) ∷ close_fd gbm_fd ∷ []) r.fate

  gbm_failed : (gbm_fd : ℤ) (g : ℕ) → Undone (gbm_error gbm_fd g).effects
  unfolding elem
  gbm_failed gbm_fd g = elim inits.outcome [
    | inl (es, fails) ↦ elim (Option-cases r.state.display) [
      | inl display ↦
          rw (es, display)
            (record { fds = λ z. refl; gbms = refl; displays = λ x h. absurd (ground arith) })
      | inr (d, display) ↦
          rw (es, display)
            (record { fds = λ z. refl; gbms = refl; displays = λ x h. absurd (ground arith) })
    ]
    | inr (inl (d, es, display, c)) ↦
        rw (es, display) (record { fds = λ z. refl; gbms = refl; displays = λ x h. ground arith })
    | inr (inr (d, es, display, fails)) ↦
        rw (es, display) (record { fds = λ z. refl; gbms = refl; displays = λ x h. ground arith })
  ]

  gbm_made :
      (gbm_fd : ℤ) (g : ℕ)
      → s.gbm_device ≡ some g
      → r.ok ≡ returned true
      → Running r.state (gbm_begun gbm_fd g)
  gbm_made gbm_fd g set e = elim inits.outcome [
    | inl (es, fails) ↦ absurd (ground arith)
    | inr (inr (d, es, display, fails)) ↦ absurd (ground arith)
    | inr (inl (d, es, display, c)) ↦
        let (context, made) = c e in
        rw es (record {
          display = d;
          context = context;
          displays = (refl, refl);
          display_set = display;
          context_set = made;
          platform = inr (record {
            device = g;
            gbm_fd = gbm_fd;
            gbm = inits.gbm_kept ∙ set;
            fds = λ z. omega arith;
            gbms = (refl, refl);
          });
        })
  ]

  pub after_gbm-Leaves :
      (gbm_fd : ℤ) (g : ℕ) → s.gbm_device ≡ some g → Leaves (after_gbm gbm_fd g r)
  unfolding after_gbm
  after_gbm-Leaves gbm_fd g set = elim (ok-cases r.ok) [
    | inl e ↦
        rw (e, after_gbm)
          (record { failed = λ h. absurd (ground arith); made = λ h. absurd (ground arith) })
    | inr (inl e) ↦
        let run : after_gbm gbm_fd g r ≡ record r { effects = gbm_begun gbm_fd g } = ground arith in
        rw run (record { failed = λ h. absurd (ground arith); made = λ h. gbm_made gbm_fd g set h })
    | inr (inr e) ↦
        let run : after_gbm gbm_fd g r ≡ gbm_error gbm_fd g = rw (e, after_gbm) refl in
        rw run (record { failed = λ h. gbm_failed gbm_fd g; made = λ h. absurd (ground arith) })
  ]
