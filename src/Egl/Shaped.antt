-- ===== src/Egl/Shaped.antt =====
-- The shape of the texture formats of a renderer (westfield-egl.c), whatever the allocations answer.
use westfield.Drm.FormatSet.{DrmFormatSet, empty_set}
use westfield.Drm.Shape.{IsValid, drm_format_set_add-IsValid, empty_set-IsValid}
use westfield.Egl.Formats.{
  Modifier, Driver, get_egl_dmabuf_modifiers, DmabufFormats, add, add_modifiers, add_implicit,
  init_format, init_formats, get_egl_dmabuf_formats, init_dmabuf_formats,
}
use westfield.Prelude.{
  ℕ, inl, inr, Bool, true, false, not, List, [], ◌∷◌, length, Fate, ◌==◌, Bool-cases, Option-cases,
}

add_modifiers-IsValid :
    (s : DrmFormatSet) (f : ℕ) (all : Bool) (ms : List Modifier) (fate : Fate)
    → IsValid s
    → IsValid (add_modifiers s f all ms fate).0.0
unfolding add_modifiers
add_modifiers-IsValid s f all [] fate v = v
add_modifiers-IsValid s f all ((m, true) ∷ ms) fate v =
    let once = add s f m fate in
    add_modifiers-IsValid once.0 f all ms once.1 (drm_format_set_add-IsValid s f m fate v)
add_modifiers-IsValid s f all ((m, false) ∷ ms) fate v =
    let once = add s f m fate in
    let twice = add once.0 f m once.1 in
    add_modifiers-IsValid twice.0 f false ms twice.1
      (drm_format_set_add-IsValid once.0 f m once.1 (drm_format_set_add-IsValid s f m fate v))

module _ (mod_invalid mod_linear : ℕ) where
  add_implicit-IsValid :
      (s : DrmFormatSet) (f : ℕ) (again : Bool) (fate : Fate)
      → IsValid s
      → IsValid (add_implicit mod_invalid mod_linear s f again fate).0
  unfolding add_implicit
  add_implicit-IsValid s f false fate v = drm_format_set_add-IsValid s f mod_invalid fate v
  add_implicit-IsValid s f true fate v =
      let once = add s f mod_invalid fate in
      drm_format_set_add-IsValid once.0 f mod_invalid once.1
        (drm_format_set_add-IsValid s f mod_invalid fate v)

  init_format-IsValid :
      (s : DmabufFormats) (f : ℕ) (ms : List Modifier) (fate : Fate)
      → IsValid s.texture
      → IsValid (init_format mod_invalid mod_linear s f ms fate).0.texture
  unfolding init_format
  init_format-IsValid s f ms fate v =
      let listed = add_modifiers s.texture f true ms fate in
      let valid = add_modifiers-IsValid s.texture f true ms fate v in
      elim (Bool-cases (length ms == 0)) [
        | inl e ↦
            let implicit = add_implicit mod_invalid mod_linear listed.0.0 f true listed.1 in
            rw e (
              drm_format_set_add-IsValid implicit.0 f mod_linear implicit.1
                (add_implicit-IsValid listed.0.0 f true listed.1 valid))
        | inr e ↦ rw e (add_implicit-IsValid listed.0.0 f (not listed.0.1) listed.1 valid)
      ]

  init_formats-IsValid :
      (driver : Driver) (s : DmabufFormats) (fmts : List ℕ) (fate : Fate)
      → IsValid s.texture
      → IsValid (init_formats mod_invalid mod_linear driver s fmts fate).0.texture
  unfolding init_formats
  init_formats-IsValid driver s [] fate v = v
  init_formats-IsValid driver s (f ∷ fmts) fate v =
      let queried = get_egl_dmabuf_modifiers driver f fate in
      elim (Option-cases queried.0) [
        | inl e ↦ rw (e, init_formats) (init_formats-IsValid driver s fmts queried.1 v)
        | inr (ms, e) ↦
            let next = init_format mod_invalid mod_linear s f ms queried.1 in
            rw (e, init_formats)
              (init_formats-IsValid driver next.0 fmts next.1
                (init_format-IsValid s f ms queried.1 v))
      ]

  pub init_dmabuf_formats-IsValid :
      (driver : Driver) (fallback : List ℕ) (fate : Fate)
      → IsValid (init_dmabuf_formats mod_invalid mod_linear driver fallback fate).0.texture
  unfolding init_dmabuf_formats
  init_dmabuf_formats-IsValid driver fallback fate =
      let listed = get_egl_dmabuf_formats driver fallback fate in
      elim (Option-cases listed.0) [
        | inl e ↦ rw (e, init_dmabuf_formats) empty_set-IsValid
        | inr (fmts, e) ↦
            let fresh : DmabufFormats = record {
              texture = empty_set;
              render = empty_set;
              has_modifiers = false;
            } in
            rw (e, init_dmabuf_formats)
              (init_formats-IsValid driver fresh fmts listed.1 empty_set-IsValid)
      ]
