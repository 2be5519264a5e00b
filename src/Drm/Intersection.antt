-- ===== src/Drm/Intersection.antt =====
-- drm_format_intersect and drm_format_set_intersect of drm_format_set.c. A failed assert ends the
-- program: `aborted`.
pub mod Modifiers
pub mod Formats
pub mod Sets
use westfield.Prelude.{
  ℕ, Bool, true, false, ◌||◌, Option, none, some, List, [], ◌∷◌, ◌++◌, Mem, alloc, elem, length,
  ltb, ◌==◌, if◌then◌else◌, min,
}
pub use westfield.Drm.Checked.{Checked, returned, aborted}
use westfield.Drm.Format.{DrmFormat}
use westfield.Drm.FormatSet.{DrmFormatSet, lookup_format}

-- `a->len < b->len ? a->len : b->len`
abbrev pub smaller : ℕ → ℕ → ℕ
smaller a b = if ltb a b then a else b

-- The nested loops of drm_format_intersect, from the state in which `out` has been stored.
unfoldable pub intersect_modifiers : ℕ → List ℕ → List ℕ → List ℕ → Checked (List ℕ)
intersect_modifiers capacity out [] ys = returned out
intersect_modifiers capacity out (m ∷ xs) ys =
    let stored = intersect_modifiers capacity (out ++ m ∷ []) xs ys in
    let passed = intersect_modifiers capacity out xs ys in
    if elem m ys then if ltb (length out) capacity then stored else aborted else passed

-- The last part of drm_format_intersect: an empty intersection is NULL.
abbrev pub finish_intersect : ℕ → ℕ → List ℕ → Option DrmFormat
finish_intersect format capacity [] = none
finish_intersect format capacity (m ∷ ms) =
    some (record { format = format; capacity = capacity; modifiers = m ∷ ms })

unfoldable pub drm_format_intersect : DrmFormat → DrmFormat → Mem (Checked (Option DrmFormat))
unfolding intersect_modifiers
drm_format_intersect a b fate =
    let capacity = smaller (length a.modifiers) (length b.modifiers) in
    let common = intersect_modifiers capacity [] a.modifiers b.modifiers in
    let (got, rest) = alloc fate in
    if a.format == b.format
    then if got
      then elim common [
        | returned ms ↦ (returned (finish_intersect a.format capacity ms), rest)
        | aborted ↦ (aborted, rest)
      ]
      else (returned none, rest)
    else (aborted, fate)

-- The outer loop of drm_format_set_intersect, from the state in which `out` has been stored in the array
-- of the given capacity. A store past it is `aborted`.
unfoldable pub intersect_formats :
    ℕ → List DrmFormat → List DrmFormat → List DrmFormat → Mem (Checked (List DrmFormat))
unfolding lookup_format drm_format_intersect
intersect_formats capacity out [] ys fate = (returned out, fate)
intersect_formats capacity out (a ∷ xs) ys fate = elim (lookup_format ys a.format) [
  | none ↦ intersect_formats capacity out xs ys fate
  | some b ↦
      let (common, rest) = drm_format_intersect a b fate in
      elim common [
        | aborted ↦ (aborted, rest)
        | returned none ↦ intersect_formats capacity out xs ys rest
        | returned (some fmt) ↦
            let stored = intersect_formats capacity (out ++ fmt ∷ []) xs ys rest in
            if ltb (length out) capacity then stored else (aborted, rest)
      ]
]

-- The last part of drm_format_set_intersect: an empty intersection is refused.
abbrev pub finish_set_intersect :
    DrmFormatSet → ℕ → Checked (List DrmFormat) → Checked (Bool × DrmFormatSet)
finish_set_intersect dst capacity aborted = aborted
finish_set_intersect dst capacity (returned []) = returned (false, dst)
finish_set_intersect dst capacity (returned (f ∷ fs)) =
    returned (true, record { capacity = capacity; formats = f ∷ fs })

-- `dst` after the call. The two Booleans say whether the pointer to it is that to `a`, or that to `b`.
unfoldable pub drm_format_set_intersect :
    Bool → Bool → DrmFormatSet → DrmFormatSet → DrmFormatSet → Mem (Checked (Bool × DrmFormatSet))
unfolding intersect_formats
drm_format_set_intersect dst_is_a dst_is_b dst a b fate =
    let capacity = smaller (length a.formats) (length b.formats) in
    let (got, rest) = alloc fate in
    let (formats, rest') = intersect_formats capacity [] a.formats b.formats rest in
    if dst_is_a || dst_is_b
    then (aborted, fate)
    else if got
    then (finish_set_intersect dst capacity formats, rest')
    else (returned (false, dst), rest)
