-- ===== src/Egl/Formats.antt =====
-- The queries for formats and modifiers, and init_dmabuf_formats of westfield-egl.c. What the EGL
-- driver answers is a parameter, as are the codes of drm_fourcc.h.
use westfield.Drm.FormatSet.{DrmFormatSet, empty_set, drm_format_set_add}
use westfield.Prelude.{
  ℕ, Bool, true, false, not, ◌||◌, Option, none, some, List, [], ◌∷◌, Mem, alloc, length, ltb, ◌==◌,
  if◌then◌else◌,
}

-- A modifier, and whether it is for external textures only.
abbrev pub Modifier : Type 0
Modifier = ℕ × Bool

-- The extensions that the display has, and what the two query functions answer, unless they fail:
-- first the count, then the entries.
pub record Driver : Type 0 where
  pub has_import : Bool
  pub has_import_modifiers : Bool
  pub format_count : Option ℕ
  pub formats : Option (List ℕ)
  pub modifier_count : ℕ → Option ℕ
  pub modifiers : ℕ → Option (List Modifier)

-- The modifiers, unless -1 is returned.
unfoldable pub get_egl_dmabuf_modifiers : Driver → ℕ → Mem (Option (List Modifier))
get_egl_dmabuf_modifiers driver format fate =
    let (got, rest) = alloc fate in
    let (got_external, rest') = alloc rest in
    if not driver.has_import
    then (none, fate)
    else if not driver.has_import_modifiers
    then (some [], fate)
    else elim (driver.modifier_count format) [
      | none ↦ (none, fate)
      | some num ↦
          if num == 0
          then (some [], fate)
          else if not got
          then (none, rest)
          else if not got_external
          then (none, rest')
          else (driver.modifiers format, rest')
    ]

-- The formats, unless -1 is returned; `fallback` are DRM_FORMAT_ARGB8888 and DRM_FORMAT_XRGB8888.
unfoldable pub get_egl_dmabuf_formats : Driver → List ℕ → Mem (Option (List ℕ))
get_egl_dmabuf_formats driver fallback fate =
    let (got, rest) = alloc fate in
    if not driver.has_import
    then (none, fate)
    else if not driver.has_import_modifiers
    then (if got then some fallback else none, rest)
    else elim driver.format_count [
      | none ↦ (none, fate)
      | some num ↦ (if got then driver.formats else none, rest)
    ]

-- The sets of the renderer.
pub record DmabufFormats : Type 0 where
  pub texture : DrmFormatSet
  pub render : DrmFormatSet
  pub has_modifiers : Bool

-- drm_format_set_add, its result ignored.
abbrev pub add : DrmFormatSet → ℕ → ℕ → Mem DrmFormatSet
add s format modifier fate =
    let (result, rest) = drm_format_set_add s format modifier fate in (result.1, rest)

-- The inner loop of init_dmabuf_formats: the texture formats and all_external_only.
unfoldable pub add_modifiers : DrmFormatSet → ℕ → Bool → List Modifier → Mem (DrmFormatSet × Bool)
add_modifiers texture format all_external [] fate = ((texture, all_external), fate)
add_modifiers texture format all_external ((modifier, external) ∷ more) fate =
    let (once, rest) = add texture format modifier fate in
    let (twice, rest') = add once format modifier rest in
    elim external [
      | true ↦ add_modifiers once format all_external more rest
      | false ↦ add_modifiers twice format false more rest'
    ]

module _ (mod_invalid mod_linear : ℕ) where
  -- The two calls for the implicit modifier.
  unfoldable pub add_implicit : DrmFormatSet → ℕ → Bool → Mem DrmFormatSet
  add_implicit texture format again fate =
      let (once, rest) = add texture format mod_invalid fate in
      if again then add once format mod_invalid rest else (once, rest)

  -- The body of the outer loop, for a format whose modifiers are known.
  unfoldable pub init_format : DmabufFormats → ℕ → List Modifier → Mem DmabufFormats
  init_format s format modifiers fate =
      let ((texture, all_external), rest) = add_modifiers s.texture format true modifiers fate in
      let none_listed = length modifiers == 0 in
      let (implicit, rest1) = add_implicit texture format (none_listed || not all_external) rest in
      let (linear, rest2) = add implicit format mod_linear rest1 in
      let (render, rest3) = add s.render format mod_linear rest2 in
      let has_modifiers = s.has_modifiers || ltb 0 (length modifiers) in
      if none_listed
      then (record { texture = linear; render = render; has_modifiers = has_modifiers }, rest3)
      else (record { texture = implicit; render = s.render; has_modifiers = has_modifiers }, rest1)

  -- The outer loop.
  unfoldable pub init_formats : Driver → DmabufFormats → List ℕ → Mem DmabufFormats
  init_formats driver s [] fate = (s, fate)
  init_formats driver s (format ∷ more) fate =
      let (modifiers, rest) = get_egl_dmabuf_modifiers driver format fate in
      elim modifiers [
        | none ↦ init_formats driver s more rest
        | some ms ↦
            let (s', rest') = init_format s format ms rest in init_formats driver s' more rest'
      ]

  -- The sets after the call, from a renderer that calloc made.
  unfoldable pub init_dmabuf_formats : Driver → List ℕ → Mem DmabufFormats
  init_dmabuf_formats driver fallback fate =
      let (formats, rest) = get_egl_dmabuf_formats driver fallback fate in
      let fresh : DmabufFormats = record {
        texture = empty_set;
        render = empty_set;
        has_modifiers = false;
      } in
      elim formats [ none ↦ (fresh, rest) | some fmts ↦ init_formats driver fresh fmts rest ]
