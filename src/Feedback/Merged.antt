-- ===== src/Feedback/Merged.antt =====
-- The formats that set_default_feedback of wlr_linux_dmabuf_v1.c merges from the tranches.
use westfield.Drm.Add.{drm_format_set_has-add}
use westfield.Drm.Format.{DrmFormat}
use westfield.Drm.FormatSet.{DrmFormatSet, drm_format_set_add, drm_format_set_has}
use westfield.Drm.Shape.{IsValid, drm_format_set_add-IsValid}
use westfield.Feedback.Compile.{Tranche, CompiledTranche}
use westfield.Feedback.Decode.{Decodes, TranchesDecode}
use westfield.Feedback.Default.{merge_modifiers, merge_formats, merge_tranches}
use westfield.Feedback.Table.{TableEntry, format_entries, table_entries}
use westfield.Prelude.{
  ℕ, zero, suc, ◌≡◌, refl, inl, inr, Bool, true, false, ◌&&◌, ◌||◌, some, List, [], ◌∷◌, ◌++◌, Fate,
  get_elem?, ◌==◌, Bool-cases, arith,
}

-- Whether a table has a pair.
unfoldable pub pair_in : List TableEntry → ℕ → ℕ → Bool
pair_in [] g k = false
pair_in ((f, m) ∷ es) g k = (f == g && m == k) || pair_in es g k

pub pair_in-append :
    (es fs : List TableEntry) (g k : ℕ)
    → pair_in (es ++ fs) g k ≡ (pair_in es g k || pair_in fs g k)
unfolding pair_in
pair_in-append [] fs g k = refl
pair_in-append ((f, m) ∷ es) fs g k = ground (arith, pair_in-append es fs g k)

-- All pairs of some tranches.
unfoldable pub tranche_entries : List Tranche → List TableEntry
tranche_entries [] = []
tranche_entries (t ∷ ts) = table_entries t.formats.formats ++ tranche_entries ts

-- A merge that was not stopped added the pairs of `es`, and any merge keeps the shape of the set.
pub record Merged (s : DrmFormatSet) (es : List TableEntry) (r : Bool × DrmFormatSet) : Type 0 where
  pub holds :
      r.0 ≡ true
      → (g k : ℕ) → drm_format_set_has r.1 g k ≡ (drm_format_set_has s g k || pair_in es g k)
  pub valid : IsValid s → IsValid r.1

merge_modifiers-Merged :
    (f : ℕ) (ms : List ℕ) (s : DrmFormatSet) (fate : Fate)
    → Merged s (format_entries f ms) (merge_modifiers f ms s fate).0
unfolding merge_modifiers pair_in
merge_modifiers-Merged f [] s fate = record { holds = λ h g k. ground arith; valid = λ v. v }
merge_modifiers-Merged f (m ∷ ms) s fate =
    let added = drm_format_set_add s f m fate in
    let law = drm_format_set_has-add s f m fate in
    let kept = drm_format_set_add-IsValid s f m fate in
    let more = merge_modifiers-Merged f ms added.0.1 added.1 in
    elim (Bool-cases added.0.0) [
      | inl e ↦
          rw (e, merge_modifiers)
            (record {
              holds = λ h g k. ground (arith, more.holds h g k, law.0 e g k);
              valid = λ v. more.valid (kept v);
            })
      | inr e ↦
          rw (e, merge_modifiers) (record { holds = λ h. absurd (ground arith); valid = kept })
    ]

merge_formats-Merged :
    (fmts : List DrmFormat) (s : DrmFormatSet) (fate : Fate)
    → Merged s (table_entries fmts) (merge_formats fmts s fate).0
unfolding merge_formats table_entries
merge_formats-Merged [] s fate = record {
  holds = λ h g k. unfold pair_in in ground arith;
  valid = λ v. v;
}
merge_formats-Merged (fmt ∷ fmts) s fate =
    let merged = merge_modifiers fmt.format fmt.modifiers s fate in
    let one = merge_modifiers-Merged fmt.format fmt.modifiers s fate in
    let more = merge_formats-Merged fmts merged.0.1 merged.1 in
    let es = format_entries fmt.format fmt.modifiers in
    elim (Bool-cases merged.0.0) [
      | inl e ↦
          rw (e, merge_formats)
            (record {
              holds = λ h g k. ground (
                arith,
                more.holds h g k,
                one.holds e g k,
                pair_in-append es (table_entries fmts) g k,
              );
              valid = λ v. more.valid (one.valid v);
            })
      | inr e ↦
          rw (e, merge_formats) (record { holds = λ h. absurd (ground arith); valid = one.valid })
    ]

pub merge_tranches-Merged :
    (ts : List Tranche) (s : DrmFormatSet) (fate : Fate)
    → Merged s (tranche_entries ts) (merge_tranches ts s fate).0
unfolding merge_tranches tranche_entries
merge_tranches-Merged [] s fate = record {
  holds = λ h g k. unfold pair_in in ground arith;
  valid = λ v. v;
}
merge_tranches-Merged (t ∷ ts) s fate =
    let merged = merge_formats t.formats.formats s fate in
    let one = merge_formats-Merged t.formats.formats s fate in
    let more = merge_tranches-Merged ts merged.0.1 merged.1 in
    let es = table_entries t.formats.formats in
    elim (Bool-cases merged.0.0) [
      | inl e ↦
          rw (e, merge_tranches)
            (record {
              holds = λ h g k. ground (
                arith,
                more.holds h g k,
                one.holds e g k,
                pair_in-append es (tranche_entries ts) g k,
              );
              valid = λ v. more.valid (one.valid v);
            })
      | inr e ↦
          rw (e, merge_tranches) (record { holds = λ h. absurd (ground arith); valid = one.valid })
    ]

get-pair_in :
    (es : List TableEntry) (i g k : ℕ) → get_elem? es i ≡ some (g, k) → pair_in es g k ≡ true
unfolding pair_in
get-pair_in [] i g k h = ground arith
get-pair_in ((f, m) ∷ es) zero g k h = ground arith
get-pair_in ((f, m) ∷ es) (suc i) g k h = ground (arith, get-pair_in es i g k h)

-- Entries that indices of a table decode to are entries of the table.
Decodes-pair_in :
    (table : List TableEntry) (is : List ℕ) (es : List TableEntry) (g k : ℕ)
    → Decodes table is es
    → pair_in es g k ≡ true
    → pair_in table g k ≡ true
unfolding pair_in
Decodes-pair_in table [] [] g k d h = ground arith
Decodes-pair_in table [] (e ∷ es) g k d h = absurd d
Decodes-pair_in table (i ∷ is) [] g k d h = absurd d
Decodes-pair_in table (i ∷ is) ((f, m) ∷ es) g k d h = elim (Bool-cases (f == g && m == k)) [
  | inl e ↦ get-pair_in table i g k (ground (arith, d.0))
  | inr e ↦ Decodes-pair_in table is es g k d.1 (ground arith)
]

-- So the pairs of tranches that compile are those of the table that they compile to.
pub TranchesDecode-pair_in :
    (table : List TableEntry) (ts : List Tranche) (cs : List CompiledTranche) (g k : ℕ)
    → TranchesDecode table ts cs
    → pair_in (tranche_entries ts) g k ≡ true
    → pair_in table g k ≡ true
unfolding tranche_entries
TranchesDecode-pair_in table [] [] g k d h = unfold pair_in in absurd (ground arith)
TranchesDecode-pair_in table [] (c ∷ cs) g k d h = absurd d
TranchesDecode-pair_in table (t ∷ ts) [] g k d h = absurd d
TranchesDecode-pair_in table (t ∷ ts) (c ∷ cs) g k d h =
    let es = table_entries t.formats.formats in
    let split = pair_in-append es (tranche_entries ts) g k in
    elim (Bool-cases (pair_in es g k)) [
      | inl e ↦ Decodes-pair_in table c.indices es g k d.0.entries e
      | inr e ↦ TranchesDecode-pair_in table ts cs g k d.1 (ground (arith, split))
    ]

-- The pairs of the last tranche are among those of all.
pub last-pair_in :
    (ts : List Tranche) (last : Tranche) (g k : ℕ)
    → pair_in (table_entries last.formats.formats) g k ≡ true
    → pair_in (tranche_entries (ts ++ last ∷ [])) g k ≡ true
unfolding tranche_entries
last-pair_in [] last g k h =
    ground (arith, pair_in-append (table_entries last.formats.formats) [] g k)
last-pair_in (t ∷ ts) last g k h =
    let es = table_entries t.formats.formats in
    ground
      (arith, pair_in-append es (tranche_entries (ts ++ last ∷ [])) g k, last-pair_in ts last g k h)
