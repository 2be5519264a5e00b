-- ===== src/Tests/Drm.antt =====
-- drm_format_set.c at concrete sets.
use westfield.Drm.Add.{drm_format_set_has-add}
use westfield.Drm.Format.{DrmFormat}
use westfield.Drm.FormatSet.{
  DrmFormatSet, empty_set, drm_format_set_add, drm_format_set_has, drm_format_set_copy,
}
use westfield.Drm.Intersection.Sets.{
  Intersects, drm_format_set_intersect-Intersects, drm_format_set_intersect-aborted,
}
use westfield.Drm.Intersection.{returned, aborted, drm_format_set_intersect}
use westfield.Drm.Shape.{IsValid, drm_format_set_add-IsValid}
use westfield.Prelude.{ℕ, ◌≡◌, ◌↔◌, refl, Bool, true, false, ◌&&◌, ◌||◌, [], ◌∷◌, elem, ◌==◌, arith}

abbrev argb : DrmFormat
argb = record { format = 1; capacity = 2; modifiers = 10 ∷ 11 ∷ [] }

abbrev xrgb : DrmFormat
xrgb = record { format = 2; capacity = 4; modifiers = 10 ∷ [] }

abbrev both : DrmFormatSet
both = record { capacity = 2; formats = argb ∷ xrgb ∷ [] }

abbrev argb_12 : DrmFormat
argb_12 = record { format = 1; capacity = 4; modifiers = 12 ∷ 11 ∷ [] }

abbrev other : DrmFormatSet
other = record { capacity = 4; formats = argb_12 ∷ [] }

both-IsValid : IsValid both
unfolding elem
both-IsValid = record {
  room = omega arith;
  fits = (
    record { room = omega arith; distinct = (refl, (refl, tt)) },
    (record { room = omega arith; distinct = (refl, tt) }, tt),
  );
  codes = unfold westfield.Drm.FormatSet.lookup_format in (refl, (refl, tt));
}

-- The array is full, so a new format doubles its capacity.
grows : drm_format_set_add both 3 10 [] ≡ (
  (
    true,
    record {
      capacity = 4;
      formats = argb ∷ xrgb ∷ record { format = 3; capacity = 4; modifiers = 10 ∷ [] } ∷ [];
    },
  ),
  [],
)
unfolding drm_format_set_add westfield.Drm.FormatSet.add_format elem
grows = refl

shared : drm_format_set_intersect false false empty_set both other [] ≡ (
  returned (
    true,
    record {
      capacity = 1;
      formats = record { format = 1; capacity = 2; modifiers = 11 ∷ [] } ∷ [];
    },
  ),
  [],
)
unfolding drm_format_set_intersect elem
shared = refl

drm_format_set_has-add_example :
    let r = (drm_format_set_add both 1 12 (true ∷ [])).0 in
    (r.0 ≡ true
      → (g k : ℕ)
      → drm_format_set_has r.1 g k ≡ (drm_format_set_has both g k || (1 == g && 12 == k)))
    × (r.0 ≡ false → r.1 ≡ both)
drm_format_set_has-add_example = drm_format_set_has-add both 1 12 (true ∷ [])

drm_format_set_add-IsValid_example : IsValid (drm_format_set_add both 1 12 []).0.1
drm_format_set_add-IsValid_example = drm_format_set_add-IsValid both 1 12 [] both-IsValid

drm_format_set_intersect-Intersects_example :
    (r : Bool × DrmFormatSet) × (drm_format_set_intersect false false empty_set both other []
      ≡ (returned r, []))
    × Intersects empty_set both other r
drm_format_set_intersect-Intersects_example =
    drm_format_set_intersect-Intersects empty_set both other both-IsValid

drm_format_set_intersect-aborted_example :
    ((drm_format_set_intersect false true empty_set both other (true ∷ false ∷ [])).0 ≡ aborted)
    ↔ ((false || true) ≡ true)
drm_format_set_intersect-aborted_example =
    drm_format_set_intersect-aborted false true empty_set both other (true ∷ false ∷ [])
      both-IsValid
