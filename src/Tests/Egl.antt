-- ===== src/Tests/Egl.antt =====
-- A driver with one format that it can render to, one for external textures, and one that it cannot
-- query.
use westfield.Dmabuf.Attributes.{DmabufAttributes}
use westfield.Drm.FormatSet.{drm_format_set_add, drm_format_set_has}
use westfield.Drm.Intersection.{returned}
use westfield.Egl.Attribs.{create_image-external}
use westfield.Egl.Extensions.{check_egl_ext, HasWord, check_egl_ext_lem}
use westfield.Egl.Formats.{
  Driver, DmabufFormats, init_dmabuf_formats, get_egl_dmabuf_formats, init_formats,
  get_egl_dmabuf_modifiers, init_format, add_implicit, add_modifiers,
}
use westfield.Egl.Image.{
  Entry, image_entries, planes_entries, plane_entries, westfield_egl_create_image_from_dmabuf,
}
use westfield.Prelude.{
  ℕ, ◌≡◌, ◌≢◌, ◌↔◌, refl, pos, true, false, Option, none, some, List, [], ◌∷◌, elem, ◌==◌,
  if◌then◌else◌, arith,
}

abbrev driver : Driver
driver = record {
  has_import = true;
  has_import_modifiers = true;
  format_count = some 3;
  formats = some (1 ∷ 2 ∷ 3 ∷ []);
  modifier_count = λ f. if f == 3 then none else some 2;
  modifiers =
      λ f. some (if f == 1 then (5, false) ∷ (6, true) ∷ [] else (5, true) ∷ (6, true) ∷ []);
}

-- The same driver without the extension for modifiers.
abbrev old_driver : Driver
old_driver = record driver { has_import_modifiers = false }

abbrev linear : ℕ
linear = 0

renders_fallback :
    drm_format_set_has (init_dmabuf_formats 7 linear old_driver (8 ∷ []) []).0.render 8 linear
    ≡ true
unfolding init_dmabuf_formats get_egl_dmabuf_formats init_formats get_egl_dmabuf_modifiers
    init_format add_implicit add_modifiers drm_format_set_add elem drm_format_set_has
renders_fallback = refl

abbrev plane : DmabufAttributes
plane = record {
  width = pos 4;
  height = pos 4;
  format = 1;
  modifier = 5;
  n_planes = 1;
  offset = λ i. 0;
  stride = λ i. 16;
  fd = λ i. pos 9;
}

-- EGL returns an image for any attributes.
abbrev create : List Entry → Option ℕ
create entries = some 77

abbrev one_format : DmabufFormats
one_format = (init_dmabuf_formats 7 0 driver (8 ∷ []) []).0

-- The modifier 5 of format 1 is not for external textures only.
external_run :
    westfield_egl_create_image_from_dmabuf 7 0 true create one_format plane
    ≡ returned (some (77, true))
unfolding westfield_egl_create_image_from_dmabuf init_dmabuf_formats get_egl_dmabuf_formats
    init_formats get_egl_dmabuf_modifiers init_format add_implicit add_modifiers drm_format_set_add
    elem image_entries planes_entries plane_entries drm_format_set_has
external_run = refl

other_modifier : plane.modifier ≢ 0
other_modifier e = ground arith

create_image-external_example : true ≡ true
create_image-external_example =
    create_image-external 7 0 true create driver (8 ∷ []) [] plane 77 true other_modifier
      external_run

-- "ab abc" has the word "abc" and not the word "b".
check_egl_ext_example :
    (check_egl_ext 6 (97 ∷ 98 ∷ 32 ∷ 97 ∷ 98 ∷ 99 ∷ []) (97 ∷ 98 ∷ 99 ∷ []) ≡ true)
    ↔ HasWord true (97 ∷ 98 ∷ 32 ∷ 97 ∷ 98 ∷ 99 ∷ []) (97 ∷ 98 ∷ 99 ∷ [])
check_egl_ext_example =
    check_egl_ext_lem 6 (97 ∷ 98 ∷ 32 ∷ 97 ∷ 98 ∷ 99 ∷ []) (97 ∷ 98 ∷ 99 ∷ []) (omega arith)
