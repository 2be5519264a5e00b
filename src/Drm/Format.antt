-- ===== src/Drm/Format.antt =====
-- One pixel format with its modifiers: struct drm_format of drm_format_set.h, and its operations in
-- drm_format_set.c. The list holds the first `len` entries of the array, so `len` is its length.
-- `capacity` is a size_t; its doubling wraps only past the memory that a machine has.
use westfield.Drm.Checked.{Checked, returned, aborted}
use westfield.Prelude.{
  ℕ, ◌*◌, Bool, true, false, Option, none, some, List, [], ◌∷◌, ◌++◌, Mem, alloc, elem, length, leb,
  ◌==◌, if◌then◌else◌,
}

pub record DrmFormat : Type 0 where
  pub format : ℕ
  pub capacity : ℕ
  pub modifiers : List ℕ

unfoldable pub drm_format_has : DrmFormat → ℕ → Bool
drm_format_has fmt modifier = elem modifier fmt.modifiers

abbrev pub grown_capacity : ℕ → ℕ
grown_capacity capacity = if capacity == 0 then 4 else capacity * 2

unfoldable pub drm_format_create : ℕ → Mem (Option DrmFormat)
drm_format_create format fate =
    let (got, rest) = alloc fate in
    (if got then some (record { format = format; capacity = 4; modifiers = [] }) else none, rest)

-- The result, and the format behind the pointer after the call.
unfoldable pub drm_format_add : DrmFormat → ℕ → Mem (Bool × DrmFormat)
unfolding drm_format_has
drm_format_add fmt modifier fate =
    let pushed = fmt.modifiers ++ modifier ∷ [] in
    let (got, rest) = alloc fate in
    if drm_format_has fmt modifier
    then ((true, fmt), fate)
    else if length fmt.modifiers == fmt.capacity
    then if got
      then ((true, record fmt { capacity = grown_capacity fmt.capacity; modifiers = pushed }), rest)
      else ((false, fmt), rest)
    else ((true, record fmt { modifiers = pushed }), fate)

unfoldable pub drm_format_dup : DrmFormat → Mem (Checked (Option DrmFormat))
drm_format_dup fmt fate =
    let (got, rest) = alloc fate in
    if leb (length fmt.modifiers) fmt.capacity
    then (returned (if got then some fmt else none), rest)
    else (aborted, fate)
