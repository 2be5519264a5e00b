-- ===== src/Feedback/Pairs.antt =====
-- The pairs of formats and of the table that get_drm_format_set_index of wlr_linux_dmabuf_v1.c reads.
use westfield.Drm.Format.{DrmFormat}
use westfield.Drm.FormatSet.{lookup_format}
use westfield.Drm.Membership.{has_pair, has_pair-cons, has_pair-absent}
use westfield.Drm.Shape.{HasDistinctCodes}
use westfield.Feedback.Merged.{pair_in, pair_in-append}
use westfield.Feedback.Table.{format_entries, table_entries}
use westfield.Prelude.{ℕ, ◌≡◌, refl, inl, inr, ◌&&◌, List, [], ◌∷◌, elem, ◌==◌, Bool-cases, arith}

format_entries-pair :
    (f : ℕ) (ms : List ℕ) (g k : ℕ) → pair_in (format_entries f ms) g k ≡ ((f == g) && elem k ms)
unfolding pair_in elem
format_entries-pair f [] g k = ground arith
format_entries-pair f (m ∷ ms) g k = ground (arith, format_entries-pair f ms g k)

-- Formats with distinct codes have the pairs of their table.
pub has_pair-entries :
    (fmts : List DrmFormat) (g k : ℕ)
    → HasDistinctCodes fmts
    → has_pair fmts g k ≡ pair_in (table_entries fmts) g k
unfolding table_entries
has_pair-entries [] g k d = unfold has_pair lookup_format pair_in in refl
has_pair-entries (fmt ∷ fmts) g k d =
    let rest = has_pair-entries fmts g k d.1 in
    let split = has_pair-cons fmt fmts g k in
    let one = format_entries-pair fmt.format fmt.modifiers g k in
    let both = pair_in-append (format_entries fmt.format fmt.modifiers) (table_entries fmts) g k in
    elim (Bool-cases (fmt.format == g)) [
      | inr e ↦ ground (arith, rest, split, one, both)
      | inl e ↦
          let same : fmt.format ≡ g = ground arith in
          let absent = has_pair-absent fmts g k (rw (← same) d.0) in
          ground (arith, rest, split, one, both, absent)
    ]
