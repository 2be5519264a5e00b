-- ===== src/Drm/Intersection/Formats.antt =====
-- The set that drm_format_set_intersect of drm_format_set.c stores.
use westfield.Prelude.{
  ℕ, ◌+◌, ◌≤◌, ◌≡◌, refl, sym, ap, ◌∙◌, inl, inr, Bool, true, false, ◌&&◌, Option, none, some, List,
  [], ◌∷◌, ◌++◌, map, arith, elem, length, length-append, All, ◌==◌, Bool-cases, Option-cases,
  IsDistinct,
}
use mathlib.Core.List.{append_assoc, append-nil}
use westfield.Drm.Format.{DrmFormat}
use westfield.Drm.FormatSet.{lookup_format}
use westfield.Drm.Intersection.{returned, finish_intersect, intersect_formats}
use westfield.Drm.Intersection.Modifiers.{
  common, elem-common, common-IsDistinct, length-common, common_format, drm_format_intersect_lem,
}
use westfield.Drm.Membership.{has_pair, has_pair-cons, has_pair-absent}
use westfield.Drm.Shape.{FormatFits, HasDistinctCodes}

-- One format of the first set, as it stands in the result if nothing fails.
unfoldable pub kept_format : List DrmFormat → DrmFormat → Option DrmFormat
kept_format ys a = elim (lookup_format ys a.format) [ none ↦ none | some b ↦ common_format a b ]

abbrev pub cons_option : Option DrmFormat → List DrmFormat → List DrmFormat
cons_option none xs = xs
cons_option (some x) xs = x ∷ xs

-- The formats that the two sets share.
unfoldable pub common_formats : List DrmFormat → List DrmFormat → List DrmFormat
common_formats [] ys = []
common_formats (a ∷ xs) ys = cons_option (kept_format ys a) (common_formats xs ys)

pub lookup-code :
    (ys : List DrmFormat) (g : ℕ) (b : DrmFormat) → lookup_format ys g ≡ some b → b.format ≡ g
unfolding lookup_format
lookup-code [] g b h = ground arith
lookup-code (y ∷ ys) g b h = ground (arith, lookup-code ys g b)

step :
    (capacity : ℕ) (out xs ys : List DrmFormat) (a : DrmFormat)
    → IsDistinct a.modifiers
    → (fmts : List DrmFormat) → length out + length (cons_option (kept_format ys a) fmts) ≤ capacity
    → ((out' : List DrmFormat)
        → length out' + length fmts ≤ capacity
        → intersect_formats capacity out' xs ys [] ≡ (returned (out' ++ fmts), []))
    → intersect_formats capacity out (a ∷ xs) ys []
      ≡ (returned (out ++ cons_option (kept_format ys a) fmts), [])
unfolding intersect_formats kept_format
step capacity out xs ys a d fmts room loop = elim (Option-cases (lookup_format ys a.format)) [
  | inl e ↦ ground (arith, loop out)
  | inr (b, e) ↦
      let same = drm_format_intersect_lem a b [] (sym (lookup-code ys a.format b e)) d in
      elim (Option-cases (common_format a b)) [
        | inl c ↦ ground (arith, same, loop out)
        | inr (fmt, c) ↦ ground (
          arith,
          same,
          loop (out ++ fmt ∷ []),
          append_assoc out (fmt ∷ []) fmts,
          length-append {0} out (fmt ∷ []),
        )
      ]
]

pub intersect-common_formats :
    (capacity : ℕ) (out xs ys : List DrmFormat)
    → All FormatFits xs
    → length out + length (common_formats xs ys) ≤ capacity
    → intersect_formats capacity out xs ys [] ≡ (returned (out ++ common_formats xs ys), [])
unfolding common_formats intersect_formats
intersect-common_formats capacity out [] ys fits room = simp append-nil
intersect-common_formats capacity out (a ∷ xs) ys fits room =
    step capacity out xs ys a fits.0.distinct _ room
      (λ out' r. intersect-common_formats capacity out' xs ys fits.1 r)

-- The codes of a list of formats.
abbrev pub codes : List DrmFormat → List ℕ
codes = map (λ fmt. fmt.format)

abbrev option_has : Option DrmFormat → ℕ → Bool
option_has none k = false
option_has (some fmt) k = elem k fmt.modifiers

finish-has :
    (format capacity k : ℕ) (ms : List ℕ)
    → option_has (finish_intersect format capacity ms) k ≡ elem k ms
unfolding elem
finish-has format capacity k [] = refl
finish-has format capacity k (m ∷ ms) = refl

kept-has :
    (ys : List DrmFormat) (a : DrmFormat) (k : ℕ)
    → option_has (kept_format ys a) k ≡ (elem k a.modifiers && has_pair ys a.format k)
unfolding kept_format has_pair
kept-has ys a k = elim (Option-cases (lookup_format ys a.format)) [
  | inl e ↦ ground arith
  | inr (b, e) ↦
      rw (e, kept_format, has_pair)
        (finish-has a.format _ k (common a.modifiers b.modifiers)
          ∙ elem-common k a.modifiers b.modifiers)
]

-- A format that is kept: its code, its shape, and that the other set has the code too.
pub record Kept (ys : List DrmFormat) (a fmt : DrmFormat) : Type 0 where
  pub code : fmt.format ≡ a.format
  pub fits : FormatFits fmt
  pub other : DrmFormat
  pub found : lookup_format ys a.format ≡ some other

finish-Kept :
    (ys : List DrmFormat) (a b fmt : DrmFormat) (capacity : ℕ) (ms : List ℕ)
    → lookup_format ys a.format ≡ some b
    → IsDistinct ms
    → length ms ≤ capacity
    → finish_intersect a.format capacity ms ≡ some fmt
    → Kept ys a fmt
finish-Kept ys a b fmt capacity [] e d l h = ground arith
finish-Kept ys a b fmt capacity (m ∷ ms) e d l h = record {
  code = ground arith;
  fits = ground (arith, d);
  other = b;
  found = e;
}

pub kept_format-Kept :
    (ys : List DrmFormat) (a fmt : DrmFormat)
    → IsDistinct a.modifiers
    → kept_format ys a ≡ some fmt
    → Kept ys a fmt
unfolding kept_format
kept_format-Kept ys a fmt d h = elim (Option-cases (lookup_format ys a.format)) [
  | inl e ↦ absurd (ground arith)
  | inr (b, e) ↦
      finish-Kept ys a b fmt _ (common a.modifiers b.modifiers) e
        (common-IsDistinct a.modifiers b.modifiers d) (length-common a.modifiers b.modifiers d)
        (ground arith)
]

pub lookup-common :
    (g : ℕ) (xs ys : List DrmFormat)
    → All FormatFits xs
    → lookup_format xs g ≡ none
    → lookup_format (common_formats xs ys) g ≡ none
unfolding lookup_format common_formats
lookup-common g [] ys fits h = refl
lookup-common g (a ∷ xs) ys fits h = elim (Option-cases (kept_format ys a)) [
  | inl e ↦ ground (arith, lookup-common g xs ys fits.1)
  | inr (fmt, e) ↦
      let kept = kept_format-Kept ys a fmt fits.0.distinct e in
      ground (arith, kept.code, lookup-common g xs ys fits.1)
]

-- The formats that both sets have, with the modifiers that both have.
pub has_pair-common :
    (g k : ℕ) (xs ys : List DrmFormat)
    → All FormatFits xs
    → HasDistinctCodes xs
    → has_pair (common_formats xs ys) g k ≡ (has_pair xs g k && has_pair ys g k)
unfolding common_formats
has_pair-common g k [] ys fits d = rw (has_pair-absent [] g k (unfold lookup_format in refl))
has_pair-common g k (a ∷ xs) ys fits d =
    let rest = has_pair-common g k xs ys fits.1 d.1 in
    let here = has_pair-cons a xs g k in
    let kept_has = kept-has ys a k in
    elim (Option-cases (kept_format ys a)) [
      | inl e ↦ elim (Bool-cases (a.format == g)) [
        | inl c ↦
            let same : a.format ≡ g = ground arith in
            let gone =
              has_pair-absent (common_formats xs ys) g k
                (lookup-common g xs ys fits.1 (rw (← same) d.0)) in
            ground (arith, ap (λ c. has_pair ys c k) same)
        | inr c ↦ ground arith
      ]
      | inr (fmt, e) ↦
          let kept = kept_format-Kept ys a fmt fits.0.distinct e in
          let first = has_pair-cons fmt (common_formats xs ys) g k in
          elim (Bool-cases (a.format == g)) [
            | inl c ↦
                let same : a.format ≡ g = ground arith in
                ground (arith, kept.code, ap (λ c. has_pair ys c k) same)
            | inr c ↦ ground (arith, kept.code)
          ]
    ]

abbrev pub is_some {ℓ} : {A : Type ℓ} → Option A → Bool
is_some none = false
is_some (some a) = true

pub elem-codes : (g : ℕ) (xs : List DrmFormat) → elem g (codes xs) ≡ is_some (lookup_format xs g)
unfolding elem lookup_format
elem-codes g [] = refl
elem-codes g (x ∷ xs) = ground (arith, elem-codes g xs)
