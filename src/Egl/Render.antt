-- ===== src/Egl/Render.antt =====
-- The render formats of init_dmabuf_formats of westfield-egl.c.
use westfield.Drm.Add.{drm_format_set_has-add}
use westfield.Drm.FormatSet.{DrmFormatSet, empty_set, drm_format_set_add, drm_format_set_has}
use westfield.Egl.Formats.{
  Modifier, Driver, get_egl_dmabuf_modifiers, DmabufFormats, add, init_format, init_formats,
  get_egl_dmabuf_formats, init_dmabuf_formats,
}
use westfield.Prelude.{
  ℕ, ◌≡◌, refl, inl, inr, true, false, ◌&&◌, List, [], ◌∷◌, Fate, ◌==◌, Bool-cases, Option-cases,
  arith,
}

-- Nothing but the added pair is new, whether the call succeeds or not.
add_sound :
    (s : DrmFormatSet) (f m : ℕ) (fate : Fate) (g k : ℕ)
    → drm_format_set_has (add s f m fate).0 g k ≡ true
    → drm_format_set_has s g k ≡ false
    → (g ≡ f) × (k ≡ m)
add_sound s f m fate g k h old =
    let law = drm_format_set_has-add s f m fate in
    let r = (drm_format_set_add s f m fate).0 in
    elim (Bool-cases r.0) [
      | inl e ↦
          let new = law.0 e g k in
          let same : (f == g && m == k) ≡ true = ground (arith, new) in (ground arith, ground arith)
      | inr e ↦ let same = law.1 e in absurd (ground (arith, same))
    ]

pub empty-has : (g k : ℕ) → drm_format_set_has empty_set g k ≡ false
unfolding drm_format_set_has
empty-has g k = refl

module _ (mod_invalid mod_linear : ℕ) where
  -- Only the linear modifier is in the set.
  abbrev pub IsLinearOnly : DrmFormatSet → Type 0
  IsLinearOnly s = (g k : ℕ) → drm_format_set_has s g k ≡ true → k ≡ mod_linear

  add-IsLinearOnly :
      (s : DrmFormatSet) (f : ℕ) (fate : Fate)
      → IsLinearOnly s
      → IsLinearOnly (add s f mod_linear fate).0
  add-IsLinearOnly s f fate only g k h = elim (Bool-cases (drm_format_set_has s g k)) [
    | inl e ↦ only g k e
    | inr e ↦ (add_sound s f mod_linear fate g k h e).1
  ]

  init_format-IsLinearOnly :
      (s : DmabufFormats) (f : ℕ) (ms : List Modifier) (fate : Fate)
      → IsLinearOnly s.render
      → IsLinearOnly (init_format mod_invalid mod_linear s f ms fate).0.render
  init_format-IsLinearOnly s f [] fate only =
      unfold init_format in add-IsLinearOnly s.render f _ only
  init_format-IsLinearOnly s f (m ∷ ms) fate only =
      let kept : (init_format mod_invalid mod_linear s f (m ∷ ms) fate).0.render ≡ s.render =
        unfold init_format in ground arith in
      rw kept only

  init_formats-IsLinearOnly :
      (driver : Driver) (s : DmabufFormats) (fmts : List ℕ) (fate : Fate)
      → IsLinearOnly s.render
      → IsLinearOnly (init_formats mod_invalid mod_linear driver s fmts fate).0.render
  unfolding init_formats
  init_formats-IsLinearOnly driver s [] fate only = only
  init_formats-IsLinearOnly driver s (f ∷ fmts) fate only =
      let q = get_egl_dmabuf_modifiers driver f fate in
      elim (Option-cases q.0) [
        | inl e ↦ rw (e, init_formats) (init_formats-IsLinearOnly driver s fmts q.1 only)
        | inr (ms, e) ↦
            let next = init_format mod_invalid mod_linear s f ms q.1 in
            rw (e, init_formats)
              (init_formats-IsLinearOnly driver next.0 fmts next.1
                (init_format-IsLinearOnly s f ms q.1 only))
      ]

  -- The code keeps every modifier but the linear one out of the render formats: whatever the driver
  -- reports, and whichever allocations fail, a pair that they have is one of the linear modifier.
  pub init_dmabuf_formats-IsLinearOnly :
      (driver : Driver) (fallback : List ℕ) (fate : Fate)
      → IsLinearOnly (init_dmabuf_formats mod_invalid mod_linear driver fallback fate).0.render
  unfolding init_dmabuf_formats
  init_dmabuf_formats-IsLinearOnly driver fallback fate =
      let q = get_egl_dmabuf_formats driver fallback fate in
      let fresh : DmabufFormats = record {
        texture = empty_set;
        render = empty_set;
        has_modifiers = false;
      } in
      let start : IsLinearOnly empty_set = λ g k h. absurd (ground (arith, empty-has g k)) in
      elim (Option-cases q.0) [
        | inl e ↦ rw (e, init_dmabuf_formats) start
        | inr (fmts, e) ↦
            rw (e, init_dmabuf_formats) (init_formats-IsLinearOnly driver fresh fmts q.1 start)
      ]
