-- ===== src/Egl/Attribs.antt =====
-- The array of westfield_egl_create_image_from_dmabuf is long enough, and what it says of the image
-- (westfield-egl.c).
use westfield.Dmabuf.Attributes.{DmabufAttributes}
use westfield.Drm.FormatSet.{drm_format_set_has}
use westfield.Drm.Intersection.{returned, aborted}
use westfield.Egl.Formats.{Driver, DmabufFormats, init_dmabuf_formats}
use westfield.Egl.Image.{
  Entry, plane_entries, planes_entries, image_entries, westfield_egl_create_image_from_dmabuf,
}
use westfield.Egl.Render.{init_dmabuf_formats-IsLinearOnly}
use westfield.Prelude.{
  ℕ, zero, suc, ◌+◌, ◌*◌, ◌≤◌, ◌<◌, ◌≡◌, ◌≢◌, inl, inr, Bool, true, false, not, ◌&&◌, Option, some,
  List, Fate, length, length-append, ◌==◌, Bool-cases, Option-cases, arith,
}

length-plane_entries :
    (with_modifier : Bool) (a : DmabufAttributes) (i : ℕ)
    → length (plane_entries with_modifier a i) ≤ 10
unfolding plane_entries
length-plane_entries true a i = omega arith
length-plane_entries false a i = omega arith

length-planes_entries :
    (with_modifier : Bool) (a : DmabufAttributes) (n i : ℕ)
    → length (planes_entries with_modifier a n i) ≤ 10 * n
unfolding planes_entries
length-planes_entries with_modifier a zero i = omega arith
length-planes_entries with_modifier a (suc n) i = omega (
  arith,
  length-append (plane_entries with_modifier a i) (planes_entries with_modifier a n (i + 1)),
  length-plane_entries with_modifier a i,
  length-planes_entries with_modifier a n (i + 1),
)

length-image_entries :
    (with_modifier : Bool) (a : DmabufAttributes)
    → a.n_planes ≤ 4
    → length (image_entries with_modifier a) < 50
unfolding image_entries
length-image_entries with_modifier a h = omega (
  arith,
  length-append (planes_entries with_modifier a a.n_planes 0) _,
  length-planes_entries with_modifier a a.n_planes 0,
)

-- For attributes of at most four planes the attributes fit the array with room to spare, so that the
-- assertion on their number holds.
pub create_image-fits :
    {Image : Type 0} (mod_invalid mod_linear : ℕ) (has_exts : Bool)
    (create : List Entry → Option Image) (formats : DmabufFormats) (a : DmabufAttributes)
    → a.n_planes ≤ 4
    → westfield_egl_create_image_from_dmabuf mod_invalid mod_linear has_exts create formats a
      ≢ aborted
unfolding westfield_egl_create_image_from_dmabuf
create_image-fits mod_invalid mod_linear has_exts create formats a h =
    let explicit = not (a.modifier == mod_invalid) in
    let fits = length-image_entries (formats.has_modifiers && explicit) a h in
    let entries = image_entries (formats.has_modifiers && explicit) a in
    elim (Option-cases (create entries)) [
      | inl e ↦ λ q. ground (arith, fits)
      | inr (image, e) ↦ λ q. ground (arith, fits)
    ]

-- The code reports every image with another modifier than the linear one as external only: with the
-- formats of init_dmabuf_formats, whatever the driver lists and whichever allocations fail.
pub create_image-external :
    {Image : Type 0} (mod_invalid mod_linear : ℕ) (has_exts : Bool)
    (create : List Entry → Option Image) (driver : Driver) (fallback : List ℕ) (fate : Fate)
    (a : DmabufAttributes) (image : Image) (external : Bool)
    → a.modifier ≢ mod_linear
    → westfield_egl_create_image_from_dmabuf mod_invalid mod_linear has_exts create
        (init_dmabuf_formats mod_invalid mod_linear driver fallback fate).0
        a
      ≡ returned (some (image, external))
    → external ≡ true
unfolding westfield_egl_create_image_from_dmabuf
create_image-external mod_invalid mod_linear has_exts create driver fallback fate a image external
      other h =
    let formats = (init_dmabuf_formats mod_invalid mod_linear driver fallback fate).0 in
    let explicit = not (a.modifier == mod_invalid) in
    let entries = image_entries (formats.has_modifiers && explicit) a in
    let only = init_dmabuf_formats-IsLinearOnly mod_invalid mod_linear driver fallback fate in
    elim (Bool-cases (drm_format_set_has formats.render a.format a.modifier)) [
      | inl e ↦ absurd (other (only a.format a.modifier e))
      | inr e ↦ elim (Option-cases (create entries)) [
        | inl n ↦ absurd (ground arith)
        | inr (made, n) ↦ ground arith
      ]
    ]
