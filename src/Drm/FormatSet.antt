-- ===== src/Drm/FormatSet.antt =====
-- A set of pixel formats: struct drm_format_set of drm_format_set.h, and its operations in
-- drm_format_set.c. The list holds the first `len` entries of the array.
use westfield.Prelude.{
  ℕ, suc, Bool, true, false, Option, none, some, List, [], ◌∷◌, ◌++◌, Mem, alloc, set, length, ◌==◌,
  if◌then◌else◌,
}
use westfield.Drm.Checked.{Checked, returned, aborted}
use westfield.Drm.Format.{
  DrmFormat, grown_capacity, drm_format_has, drm_format_create, drm_format_add, drm_format_dup,
}

pub record DrmFormatSet : Type 0 where
  pub capacity : ℕ
  pub formats : List DrmFormat

abbrev pub empty_set : DrmFormatSet
empty_set = record { capacity = 0; formats = [] }

unfoldable pub drm_format_set_finish : DrmFormatSet → DrmFormatSet
drm_format_set_finish s = empty_set

-- The slot that the returned pointer refers to, and the format in it.
unfoldable pub format_set_get_ref : List DrmFormat → ℕ → Option (ℕ × DrmFormat)
format_set_get_ref [] format = none
format_set_get_ref (fmt ∷ rest) format =
    let found = format_set_get_ref rest format in
    if fmt.format == format
    then some (0, fmt)
    else elim found [ none ↦ none | some (i, f) ↦ some (suc i, f) ]

unfoldable pub drm_format_set_get : DrmFormatSet → ℕ → Option DrmFormat
unfolding format_set_get_ref
drm_format_set_get s format = elim (format_set_get_ref s.formats format) [
  | none ↦ none
  | some (i, f) ↦ some f
]

unfoldable pub drm_format_set_has : DrmFormatSet → ℕ → ℕ → Bool
unfolding drm_format_set_get drm_format_has
drm_format_set_has s format modifier = elim (drm_format_set_get s format) [
  | none ↦ false
  | some fmt ↦ drm_format_has fmt modifier
]

-- `set->formats[set->len++] = fmt`, after the array is grown if it is full.
unfoldable pub append_format : DrmFormatSet → DrmFormat → Mem (Bool × DrmFormatSet)
append_format s fmt fate =
    let formats = s.formats ++ fmt ∷ [] in
    let (got, rest) = alloc fate in
    if length s.formats == s.capacity
    then if got
      then ((true, record { capacity = grown_capacity s.capacity; formats = formats }), rest)
      else ((false, s), rest)
    else ((true, record s { formats = formats }), fate)

-- The part of drm_format_set_add for a format that the set does not have.
unfoldable pub add_format : DrmFormatSet → ℕ → ℕ → Mem (Bool × DrmFormatSet)
unfolding drm_format_create drm_format_add append_format
add_format s format modifier fate =
    let (created, rest) = drm_format_create format fate in
    elim created [
      | none ↦ ((false, s), rest)
      | some fmt ↦
          let (result, rest') = drm_format_add fmt modifier rest in
          if result.0 then append_format s result.1 rest' else ((false, s), rest')
    ]

unfoldable pub drm_format_set_add : DrmFormatSet → ℕ → ℕ → Mem (Bool × DrmFormatSet)
unfolding format_set_get_ref drm_format_add add_format
drm_format_set_add s format modifier fate = elim (format_set_get_ref s.formats format) [
  | some (i, fmt) ↦
      let (result, rest) = drm_format_add fmt modifier fate in
      ((result.0, record s { formats = set s.formats i result.1 }), rest)
  | none ↦ add_format s format modifier fate
]

-- The search of a nested loop: the first format of an array with the given code.
unfoldable pub lookup_format : List DrmFormat → ℕ → Option DrmFormat
lookup_format [] g = none
lookup_format (x ∷ xs) g = if x.format == g then some x else lookup_format xs g

unfoldable pub copy_formats : List DrmFormat → Mem (Checked (Option (List DrmFormat)))
unfolding drm_format_dup
copy_formats [] fate = (returned (some []), fate)
copy_formats (fmt ∷ more) fate =
    let (duped, rest) = drm_format_dup fmt fate in
    let (copied, rest') = copy_formats more rest in
    elim duped [
      | aborted ↦ (aborted, rest)
      | returned none ↦ (returned none, rest)
      | returned (some f) ↦ elim copied [
        | aborted ↦ (aborted, rest')
        | returned none ↦ (returned none, rest')
        | returned (some formats) ↦ (returned (some (f ∷ formats)), rest')
      ]
    ]

abbrev pub finish_copy :
    DrmFormatSet → DrmFormatSet → Checked (Option (List DrmFormat)) → Checked (Bool × DrmFormatSet)
finish_copy dst src aborted = aborted
finish_copy dst src (returned none) = returned (false, dst)
finish_copy dst src (returned (some formats)) =
    returned (true, record { capacity = length src.formats; formats = formats })

-- `dst` after the call.
unfoldable pub drm_format_set_copy :
    DrmFormatSet → DrmFormatSet → Mem (Checked (Bool × DrmFormatSet))
unfolding copy_formats
drm_format_set_copy dst src fate =
    let (got, rest) = alloc fate in
    let (copied, rest') = copy_formats src.formats rest in
    if got then (finish_copy dst src copied, rest') else (returned (false, dst), rest)
