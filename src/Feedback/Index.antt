-- ===== src/Feedback/Index.antt =====
-- get_drm_format_set_index of wlr_linux_dmabuf_v1.c against the format table.
use westfield.Drm.Format.{DrmFormat}
use westfield.Drm.FormatSet.{DrmFormatSet, lookup_format, drm_format_set_has}
use westfield.Drm.Membership.{has_pair, has_pair-cons, has-has_pair}
use westfield.Feedback.Table.{
  TableEntry, format_entries, table_entries, table_length, modifier_index, format_index,
  get_drm_format_set_index,
}
use westfield.Prelude.{
  ℕ, suc, ◌+◌, ◌≡◌, refl, ap, ◌∙◌, ◌⊎◌, inl, inr, Bool, true, false, Option, none, some, List, [],
  ◌∷◌, ◌++◌, elem, length, length-append, get_elem?, get_elem?-append_left, ◌==◌, Bool-cases, arith,
}

-- A search that starts at index `idx` and looks for `e` in `table`.
abbrev pub Finds : ℕ → List TableEntry → TableEntry → Bool → Option ℕ → Type 0
Finds idx table e present result =
    ((j : ℕ) × (result ≡ some (idx + j)) × (get_elem? table j ≡ some e) × (present ≡ true))
    ⊎ ((result ≡ none) × (present ≡ false))

modifier_index-Finds :
    (idx format : ℕ) (ms : List ℕ) (m : ℕ)
    → Finds idx (format_entries format ms) (format, m) (elem m ms) (modifier_index idx ms m)
unfolding modifier_index elem
modifier_index-Finds idx format [] m = inr (refl, refl)
modifier_index-Finds idx format (x ∷ xs) m = elim (Bool-cases (x == m)) [
  | inl e ↦ inl (0, ground arith, ground arith, ground arith)
  | inr e ↦ elim (modifier_index-Finds (idx + 1) format xs m) [
    | inl (j, found, here, present) ↦ inl (suc j, ground arith, here, ground arith)
    | inr (missing, absent) ↦ inr (ground arith, ground arith)
  ]
]

get_elem?-append_right {ℓ} :
    {A : Type ℓ} (xs ys : List A) (j : ℕ) → get_elem? (xs ++ ys) (length xs + j) ≡ get_elem? ys j
get_elem?-append_right [] ys j = let e : 0 + j ≡ j = omega arith in rw e
get_elem?-append_right (x ∷ xs) ys j =
    let e : suc (length xs) + j ≡ suc (length xs + j) = omega arith in
    rw e (get_elem?-append_right xs ys j)

length-format_entries : (format : ℕ) (ms : List ℕ) → length (format_entries format ms) ≡ length ms
length-format_entries format [] = refl
length-format_entries format (m ∷ ms) = ap suc (length-format_entries format ms)

format_index-Finds :
    (idx : ℕ) (xs : List DrmFormat) (f m : ℕ)
    → Finds idx (table_entries xs) (f, m) (has_pair xs f m) (format_index idx xs f m)
unfolding format_index table_entries
format_index-Finds idx [] f m = inr (refl, unfold has_pair lookup_format in refl)
format_index-Finds idx (x ∷ xs) f m = elim (Bool-cases (x.format == f)) [
  | inl e ↦
      let same : x.format ≡ f = ground arith in
      elim (modifier_index-Finds idx x.format x.modifiers m) [
        | inl (j, found, here, present) ↦ inl (
          j,
          ground arith,
          get_elem?-append_left (format_entries x.format x.modifiers) (table_entries xs) j (f, m)
              (rw (← same) here),
          ground (arith, has_pair-cons x xs f m),
        )
        | inr (missing, absent) ↦ inr (ground arith, ground (arith, has_pair-cons x xs f m))
      ]
  | inr e ↦ elim (format_index-Finds (idx + length x.modifiers) xs f m) [
    | inl (j, found, here, present) ↦ inl (
      length x.modifiers + j,
      ground arith,
      rw (← length-format_entries x.format x.modifiers) (
          get_elem?-append_right (format_entries x.format x.modifiers) (table_entries xs) j ∙ here),
      ground (arith, has_pair-cons x xs f m),
    )
    | inr (missing, absent) ↦ inr (ground arith, ground (arith, has_pair-cons x xs f m))
  ]
]

-- get_drm_format_set_index finds a pair exactly if the set has it, and the index that it returns is
-- that of an entry of the table with this pair.
pub get_drm_format_set_index-Finds :
    (s : DrmFormatSet) (f m : ℕ)
    → Finds 0
        (table_entries s.formats)
        (f, m)
        (drm_format_set_has s f m)
        (get_drm_format_set_index s f m)
unfolding get_drm_format_set_index
get_drm_format_set_index-Finds s f m = rw (has-has_pair s f m) (format_index-Finds 0 s.formats f m)

pub length-table_entries : (xs : List DrmFormat) → length (table_entries xs) ≡ table_length xs
unfolding table_entries table_length
length-table_entries [] = refl
length-table_entries (x ∷ xs) = omega (
  arith,
  length-append {0} (format_entries x.format x.modifiers) (table_entries xs),
  length-format_entries x.format x.modifiers,
  length-table_entries xs,
)
