-- ===== src/Drm/Membership.antt =====
-- What drm_format_set_has answers after the operations of drm_format_set.c.
use westfield.Prelude.{
  ℕ, suc, ◌≡◌, refl, ap, inl, inr, Bool, false, none, some, List, [], ◌∷◌, ◌++◌, arith, elem, set,
  ◌==◌, if◌then◌else◌, Bool-cases, Option-cases,
}
use westfield.Drm.Format.{DrmFormat}
use westfield.Drm.FormatSet.{
  DrmFormatSet, lookup_format, format_set_get_ref, drm_format_set_get, drm_format_set_has,
}

unfoldable pub has_pair : List DrmFormat → ℕ → ℕ → Bool
unfolding lookup_format
has_pair xs g m = elim (lookup_format xs g) [ none ↦ false | some fmt ↦ elem m fmt.modifiers ]

get-lookup :
    (xs : List DrmFormat) (g c : ℕ)
    → drm_format_set_get (record { capacity = c; formats = xs }) g ≡ lookup_format xs g
unfolding drm_format_set_get lookup_format
get-lookup [] g c = refl
get-lookup (x ∷ xs) g c = ground (arith, get-lookup xs g c)

pub has-has_pair : (s : DrmFormatSet) (g m : ℕ) → drm_format_set_has s g m ≡ has_pair s.formats g m
unfolding drm_format_set_has has_pair
has-has_pair s g m = ground (arith, get-lookup s.formats g s.capacity)

pub lookup-append :
    (xs : List DrmFormat) (y : DrmFormat) (g : ℕ)
    → lookup_format (xs ++ y ∷ []) g ≡ elim (lookup_format xs g) [
      | none ↦ if y.format == g then some y else none
      | some x ↦ some x
    ]
unfolding lookup_format
lookup-append [] y g = ground arith
lookup-append (x ∷ xs) y g = ground (arith, lookup-append xs y g)

pub ref-none :
    (xs : List DrmFormat) (f : ℕ) → format_set_get_ref xs f ≡ none → lookup_format xs f ≡ none
unfolding format_set_get_ref lookup_format
ref-none [] f h = refl
ref-none (x ∷ xs) f h = ground (arith, ref-none xs f)

-- The slot that is found holds the first format with the code.
pub record Found (xs : List DrmFormat) (f i : ℕ) (fmt : DrmFormat) : Type 0 where
  pub code : fmt.format ≡ f
  pub first : lookup_format xs f ≡ some fmt
  pub same : set xs i fmt ≡ xs
  pub written :
      (new : DrmFormat) (g : ℕ)
      → new.format ≡ f
      → lookup_format (set xs i new) g ≡ (if f == g then some new else lookup_format xs g)

pub ref-Found :
    (xs : List DrmFormat) (f i : ℕ) (fmt : DrmFormat)
    → format_set_get_ref xs f ≡ some (i, fmt)
    → Found xs f i fmt
unfolding format_set_get_ref lookup_format
ref-Found [] f i fmt h = ground arith
ref-Found (x ∷ xs) f i fmt h = elim (Bool-cases (x.format == f)) [
  | inl e ↦
      let slot : i ≡ 0 = ground arith in
      let same : fmt ≡ x = ground arith in
      rw (slot, same)
        (record {
          code = ground arith;
          first = rw e refl;
          same = refl;
          written = λ new g c. ground arith;
        })
  | inr e ↦ elim (Option-cases (format_set_get_ref xs f)) [
    | inl r ↦ absurd (ground arith)
    | inr ((j, y), r) ↦
        let slot : i ≡ suc j = ground arith in
        let same : fmt ≡ y = ground arith in
        let rest = ref-Found xs f j y r in
        rw (slot, same)
          (record {
            code = rest.code;
            first = rw e rest.first;
            same = ap (◌∷◌ x) rest.same;
            written = λ new g c. ground (arith, rest.written new g c);
          })
  ]
]

pub has_pair-cons :
    (x : DrmFormat) (xs : List DrmFormat) (g k : ℕ)
    → has_pair (x ∷ xs) g k ≡ (if x.format == g then elem k x.modifiers else has_pair xs g k)
unfolding has_pair lookup_format
has_pair-cons x xs g k = ground arith

pub has_pair-absent :
    (xs : List DrmFormat) (g k : ℕ) → lookup_format xs g ≡ none → has_pair xs g k ≡ false
unfolding has_pair
has_pair-absent xs g k h = rw (h, has_pair)
