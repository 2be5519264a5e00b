-- ===== src/Drm/Shape.antt =====
-- The shape of a format set that drm_format_set.c relies on, and that its operations keep.
use westfield.Prelude.{
  ℕ, suc, ◌≤◌, ◌≡◌, ◌≢◌, ◌⊎◌, alloc, refl, ◌∙◌, inl, inr, Bool, true, false, Option, none, some,
  List, [], ◌∷◌, ◌++◌, Fate, arith, elem, set, length, All, length-append, IsDistinct,
  IsDistinct-push, length-set, ◌==◌, Bool-cases, Option-cases,
}
use westfield.Drm.Checked.{Checked, returned, aborted}
use westfield.Drm.Format.{
  DrmFormat, drm_format_has, drm_format_create, drm_format_add, drm_format_dup,
}
use westfield.Drm.FormatSet.{
  DrmFormatSet, empty_set, lookup_format, finish_copy, format_set_get_ref, append_format,
  add_format, drm_format_set_add, copy_formats, drm_format_set_copy,
}
use westfield.Drm.Membership.{lookup-append, ref-Found, ref-none}
use westfield.Drm.Add.{drm_format_add-Added}

-- One format: its modifiers are distinct and fit its capacity.
pub record FormatFits (fmt : DrmFormat) : Type 0 where
  pub room : length fmt.modifiers ≤ fmt.capacity
  pub distinct : IsDistinct fmt.modifiers

-- No code twice.
abbrev pub HasDistinctCodes : List DrmFormat → Type 0
HasDistinctCodes [] = Unit
HasDistinctCodes (x ∷ xs) = (lookup_format xs x.format ≡ none) × HasDistinctCodes xs

pub record IsValid (s : DrmFormatSet) : Type 0 where
  pub room : length s.formats ≤ s.capacity
  pub fits : All FormatFits s.formats
  pub codes : HasDistinctCodes s.formats

drm_format_add-FormatFits :
    (fmt : DrmFormat) (m : ℕ) (fate : Fate)
    → FormatFits fmt
    → FormatFits (drm_format_add fmt m fate).0.1
unfolding drm_format_add drm_format_has
drm_format_add-FormatFits fmt m fate v =
    ground (arith, length-append {0} fmt.modifiers (m ∷ []), IsDistinct-push fmt.modifiers m)

pub HasDistinctCodes-push :
    (xs : List DrmFormat) (y : DrmFormat)
    → lookup_format xs y.format ≡ none
    → HasDistinctCodes xs
    → HasDistinctCodes (xs ++ y ∷ [])
unfolding lookup_format
HasDistinctCodes-push [] y h d = (refl, tt)
HasDistinctCodes-push (x ∷ xs) y h d =
    (ground (arith, lookup-append xs y x.format), HasDistinctCodes-push xs y (ground arith) d.1)

pub All-push {ℓ κ} :
    {A : Type ℓ} (P : A → Type κ) (xs : List A) (y : A) → All P xs → P y → All P (xs ++ y ∷ [])
All-push P [] y h p = (p, tt)
All-push P (x ∷ xs) y h p = (h.0, All-push P xs y h.1 p)

append_format-IsValid :
    (s : DrmFormatSet) (fmt : DrmFormat) (fate : Fate)
    → IsValid s
    → FormatFits fmt
    → lookup_format s.formats fmt.format ≡ none
    → IsValid (append_format s fmt fate).0.1
unfolding append_format
append_format-IsValid s fmt fate v f h =
    let longer = length-append s.formats (fmt ∷ []) in
    let fits = All-push FormatFits s.formats fmt v.fits f in
    let codes = HasDistinctCodes-push s.formats fmt h v.codes in ground (arith, longer, fits, codes)

lookup-set-none :
    (xs : List DrmFormat) (f i : ℕ) (fmt new : DrmFormat) (g : ℕ)
    → format_set_get_ref xs f ≡ some (i, fmt)
    → new.format ≡ f
    → lookup_format xs g ≡ none
    → lookup_format (set xs i new) g ≡ none
lookup-set-none xs f i fmt new g h code absent =
    let found = ref-Found xs f i fmt h in ground (arith, found.written new g code, found.first)

-- Writing a format with the same code into the slot that was found.
set-shape :
    (xs : List DrmFormat) (f i : ℕ) (fmt new : DrmFormat)
    → format_set_get_ref xs f ≡ some (i, fmt)
    → new.format ≡ f
    → All FormatFits xs
    → HasDistinctCodes xs
    → FormatFits fmt
      × (FormatFits new → All FormatFits (set xs i new))
      × HasDistinctCodes (set xs i new)
unfolding format_set_get_ref lookup_format
set-shape [] f i fmt new h code fits codes = ground arith
set-shape (x ∷ xs) f i fmt new h code fits codes = elim (Bool-cases (x.format == f)) [
  | inl e ↦
      let slot : i ≡ 0 = ground arith in
      let same : fmt ≡ x = ground arith in
      rw (slot, same) (fits.0, (λ n. (n, fits.1)), (ground arith, codes.1))
  | inr e ↦ elim (Option-cases (format_set_get_ref xs f)) [
    | inl r ↦ absurd (ground arith)
    | inr ((j, y), r) ↦
        let slot : i ≡ suc j = ground arith in
        let same : fmt ≡ y = ground arith in
        let rest = set-shape xs f j y new r code fits.1 codes.1 in
        rw (slot, same)
          (
            rest.0,
            (λ n. (fits.0, rest.1 n)),
            (lookup-set-none xs f j y new x.format r code codes.0, rest.2),
          )
  ]
]

add_format-IsValid :
    (s : DrmFormatSet) (f m : ℕ) (fate : Fate)
    → lookup_format s.formats f ≡ none
    → IsValid s
    → IsValid (add_format s f m fate).0.1
unfolding add_format drm_format_create drm_format_add drm_format_has elem
add_format-IsValid s f m [] absent v =
    append_format-IsValid s _ [] v (record { room = omega arith; distinct = (refl, tt) }) absent
add_format-IsValid s f m (true ∷ fate) absent v =
    append_format-IsValid s _ fate v (record { room = omega arith; distinct = (refl, tt) }) absent
add_format-IsValid s f m (false ∷ fate) absent v = v

-- drm_format_set_add keeps the shape of the set, whatever the allocations answer: no array runs over
-- its capacity, and no code and no modifier of one format is stored twice.
pub drm_format_set_add-IsValid :
    (s : DrmFormatSet) (f m : ℕ) (fate : Fate)
    → IsValid s
    → IsValid (drm_format_set_add s f m fate).0.1
unfolding drm_format_set_add
drm_format_set_add-IsValid s f m fate v = elim (Option-cases (format_set_get_ref s.formats f)) [
  | inl e ↦ rw (e, drm_format_set_add) (add_format-IsValid s f m fate (ref-none s.formats f e) v)
  | inr ((i, fmt), e) ↦
      let found = ref-Found s.formats f i fmt e in
      let new = (drm_format_add fmt m fate).0.1 in
      let code = (drm_format_add-Added fmt m fate).code ∙ found.code in
      let shape = set-shape s.formats f i fmt new e code v.fits v.codes in
      rw (e, drm_format_set_add)
        (record {
          room = rw (length-set s.formats i new) v.room;
          fits = shape.1 (drm_format_add-FormatFits fmt m fate shape.0);
          codes = shape.2;
        })
]

pub empty_set-IsValid : IsValid empty_set
empty_set-IsValid = record { room = omega arith; fits = tt; codes = tt }

copied-cases :
    {A : Type 0} (c : Checked (Option A))
    → (c ≡ aborted) ⊎ ((c ≡ returned none) ⊎ ((a : A) × (c ≡ returned (some a))))
copied-cases aborted = inl refl
copied-cases (returned none) = inr (inl refl)
copied-cases (returned (some a)) = inr (inr (a, refl))

copy_formats_lem :
    (xs ys : List DrmFormat) (fate : Fate) → (copy_formats xs fate).0 ≡ returned (some ys) → ys ≡ xs
unfolding copy_formats drm_format_dup
copy_formats_lem [] ys fate h = ground arith
copy_formats_lem (x ∷ xs) ys fate h = elim (copied-cases (copy_formats xs (alloc fate).1).0) [
  | inl e ↦ absurd (ground arith)
  | inr (inl e) ↦ absurd (ground arith)
  | inr (inr (zs, e)) ↦ ground (arith, copy_formats_lem xs zs (alloc fate).1 e)
]

copy_formats_total :
    (xs : List DrmFormat) → All FormatFits xs → copy_formats xs [] ≡ (returned (some xs), [])
unfolding copy_formats drm_format_dup
copy_formats_total [] fits = refl
copy_formats_total (x ∷ xs) fits =
    let room = fits.0.room in ground (arith, room, copy_formats_total xs fits.1)

copy_formats-ne-aborted :
    (xs : List DrmFormat) (fate : Fate) → All FormatFits xs → (copy_formats xs fate).0 ≢ aborted
unfolding copy_formats drm_format_dup
copy_formats-ne-aborted [] fate fits h = cc
copy_formats-ne-aborted (x ∷ xs) fate fits h =
    let room = fits.0.room in
    let rest = copy_formats-ne-aborted xs (alloc fate).1 fits.1 in
    elim (copied-cases (copy_formats xs (alloc fate).1).0) [
      | inl e ↦ absurd (rest e)
      | inr (inl e) ↦ absurd (ground (arith, room))
      | inr (inr (zs, e)) ↦ absurd (ground (arith, room))
    ]

-- The outcome of drm_format_set_copy.
pub record Copied (dst src : DrmFormatSet) (r : Checked (Bool × DrmFormatSet)) : Type 0 where
  pub same :
      (s : DrmFormatSet)
      → r ≡ returned (true, s)
      → s ≡ record { capacity = length src.formats; formats = src.formats }
  pub kept : (s : DrmFormatSet) → r ≡ returned (false, s) → s ≡ dst

finish_copy-Copied :
    (dst src : DrmFormatSet) (o : Checked (Option (List DrmFormat)))
    → ((ys : List DrmFormat) → o ≡ returned (some ys) → ys ≡ src.formats)
    → Copied dst src (finish_copy dst src o)
finish_copy-Copied dst src aborted h = record {
  same = λ s e. absurd (ground arith);
  kept = λ s e. absurd (ground arith);
}
finish_copy-Copied dst src (returned none) h = record {
  same = λ s e. absurd (ground arith);
  kept = λ s e. ground arith;
}
finish_copy-Copied dst src (returned (some ys)) h = record {
  same = λ s e. let whole = h ys refl in ground arith;
  kept = λ s e. absurd (ground arith);
}

-- A copy that returns true has the formats of the source, in an array of exactly that length; one
-- that returns false leaves the destination alone; no assert fails for a source that is well formed; and
-- with no failed allocation it returns true then.
pub drm_format_set_copy-Copied :
    (dst src : DrmFormatSet) (fate : Fate)
    → Copied dst src (drm_format_set_copy dst src fate).0
      × (All FormatFits src.formats
          → ((drm_format_set_copy dst src fate).0 ≢ aborted)
            × ((s : DrmFormatSet) × ((drm_format_set_copy dst src []).0 ≡ returned (true, s))))
unfolding drm_format_set_copy
drm_format_set_copy-Copied dst src fate = (
  elim (Bool-cases (alloc fate).0) [
    | inl g ↦
        rw g
          (finish_copy-Copied dst src _ (λ ys h. copy_formats_lem src.formats ys (alloc fate).1 h))
    | inr g ↦ rw g (record { same = λ s e. absurd (ground arith); kept = λ s e. ground arith })
  ],
  λ fits.
      let returns = copy_formats-ne-aborted src.formats (alloc fate).1 fits in
      (
        elim (copied-cases (copy_formats src.formats (alloc fate).1).0) [
          | inl e ↦ absurd (returns e)
          | inr (inl e) ↦ λ h. absurd (ground arith)
          | inr (inr (ys, e)) ↦ λ h. absurd (ground arith)
        ],
        (
          record { capacity = length src.formats; formats = src.formats },
          rw (copy_formats_total src.formats fits) refl,
        ),
      ),
)
