-- ===== src/Feedback/Table.antt =====
-- The format table of the fallback tranche and get_drm_format_set_index: wlr_linux_dmabuf_v1.c.
use westfield.Drm.Format.{DrmFormat}
use westfield.Drm.FormatSet.{DrmFormatSet}
use westfield.Prelude.{ℕ, ◌+◌, Option, none, some, List, [], ◌∷◌, ◌++◌, length, ◌==◌, if◌then◌else◌}

-- struct wlr_linux_dmabuf_feedback_v1_table_entry: a format and a modifier.
abbrev pub TableEntry : Type 0
TableEntry = ℕ × ℕ

abbrev pub format_entries : ℕ → List ℕ → List TableEntry
format_entries format [] = []
format_entries format (m ∷ ms) = (format, m) ∷ format_entries format ms

-- The nested loops that fill the table.
unfoldable pub table_entries : List DrmFormat → List TableEntry
table_entries [] = []
table_entries (fmt ∷ fmts) = format_entries fmt.format fmt.modifiers ++ table_entries fmts

-- The loop that sums the lengths.
unfoldable pub table_length : List DrmFormat → ℕ
table_length [] = 0
table_length (fmt ∷ fmts) = length fmt.modifiers + table_length fmts

-- The second loop of get_drm_format_set_index, from index `idx`.
unfoldable pub modifier_index : ℕ → List ℕ → ℕ → Option ℕ
modifier_index idx [] modifier = none
modifier_index idx (m ∷ ms) modifier =
    let rest = modifier_index (idx + 1) ms modifier in if m == modifier then some idx else rest

-- The first loop, which goes on to the second at the first format with the code. -1 is `none`.
unfoldable pub format_index : ℕ → List DrmFormat → ℕ → ℕ → Option ℕ
unfolding modifier_index
format_index idx [] format modifier = none
format_index idx (fmt ∷ fmts) format modifier =
    let rest = format_index (idx + length fmt.modifiers) fmts format modifier in
    if fmt.format == format then modifier_index idx fmt.modifiers modifier else rest

unfoldable pub get_drm_format_set_index : DrmFormatSet → ℕ → ℕ → Option ℕ
unfolding format_index
get_drm_format_set_index s format modifier = format_index 0 s.formats format modifier
