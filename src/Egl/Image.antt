-- ===== src/Egl/Image.antt =====
-- westfield_egl_create_image_from_dmabuf of westfield-egl.c: the attributes that it passes to EGL, in
-- an array of 50.
use westfield.Dmabuf.Attributes.{DmabufAttributes}
use westfield.Drm.FormatSet.{drm_format_set_has}
use westfield.Drm.Intersection.{Checked, returned, aborted}
use westfield.Egl.Formats.{DmabufFormats}
use westfield.Prelude.{
  ℕ, zero, suc, ◌+◌, ◌/◌, ◌%◌, ◌^◌, ℤ, Bool, not, ◌&&◌, Option, none, some, List, [], ◌∷◌, ◌++◌,
  length, ltb, ◌==◌, if◌then◌else◌,
}

-- The names of attributes, those of a plane with its index.
pub data Name : Type 0 where
  egl_width egl_height linux_drm_fourcc image_preserved : Name
  plane_fd plane_offset plane_pitch plane_modifier_lo plane_modifier_hi : ℕ → Name

-- The entries of `attribs`; an EGLint has the 32 bits of the number that is stored.
pub data Entry : Type 0 where
  name : Name → Entry
  int : ℤ → Entry
  bits : ℕ → Entry
  egl_none : Entry

-- The entries of plane `i`.
unfoldable pub plane_entries : Bool → DmabufAttributes → ℕ → List Entry
plane_entries with_modifier a i =
    name (plane_fd i)
    ∷ int (a.fd i)
    ∷ name (plane_offset i)
    ∷ bits (a.offset i)
    ∷ name (plane_pitch i)
    ∷ bits (a.stride i)
    ∷ (if with_modifier
        then name (plane_modifier_lo i)
          ∷ bits (a.modifier % 2 ^ 32)
          ∷ name (plane_modifier_hi i)
          ∷ bits (a.modifier / 2 ^ 32)
          ∷ []
        else [])

-- The loop from plane `i`, for `n` rounds.
unfoldable pub planes_entries : Bool → DmabufAttributes → ℕ → ℕ → List Entry
planes_entries with_modifier a zero i = []
planes_entries with_modifier a (suc n) i =
    plane_entries with_modifier a i ++ planes_entries with_modifier a n (i + 1)

unfoldable pub image_entries : Bool → DmabufAttributes → List Entry
image_entries with_modifier a =
    name egl_width
    ∷ int a.width
    ∷ name egl_height
    ∷ int a.height
    ∷ name linux_drm_fourcc
    ∷ bits a.format
    ∷ (planes_entries with_modifier a a.n_planes 0 ++ name image_preserved ∷ bits 1 ∷ egl_none ∷ [])

-- The image and `*external_only`, unless NULL is returned. `create` is eglCreateImageKHR, and the
-- first argument says whether the display has both extensions.
unfoldable pub westfield_egl_create_image_from_dmabuf :
    {Image : Type 0} (mod_invalid mod_linear : ℕ)
    → Bool
    → (List Entry → Option Image)
    → DmabufFormats
    → DmabufAttributes
    → Checked (Option (Image × Bool))
westfield_egl_create_image_from_dmabuf mod_invalid mod_linear has_exts create formats a =
    let explicit = not (a.modifier == mod_invalid) in
    let entries = image_entries (formats.has_modifiers && explicit) a in
    let external = not (drm_format_set_has formats.render a.format a.modifier) in
    if not has_exts
    then returned none
    else if explicit && not (a.modifier == mod_linear) && not formats.has_modifiers
    then returned none
    else if ltb (length entries) 50
    then elim (create entries) [
      | none ↦ returned none
      | some image ↦ returned (some (image, external))
    ]
    else aborted
