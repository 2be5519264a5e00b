-- ===== src/Drm/Intersection/Sets.antt =====
-- drm_format_set_intersect of drm_format_set.c against the intersection of two sets of pairs.
use westfield.Prelude.{
  ℕ, suc, ◌+◌, ◌≤◌, ◌≡◌, ◌≢◌, ◌↔◌, refl, sym, ap, ◌∙◌, inl, inr, Bool, true, false, ◌&&◌, ◌||◌,
  Option, none, some, List, [], ◌∷◌, ◌++◌, Fate, alloc, arith, elem, length, length-append, All,
  ◌==◌, if◌then◌else◌, Bool-cases, Option-cases, IsDistinct, length-le-of-subset,
}
use westfield.Drm.Format.{DrmFormat}
use westfield.Drm.FormatSet.{DrmFormatSet, lookup_format, drm_format_set_has}
use westfield.Drm.Intersection.{
  Checked, returned, aborted, smaller, intersect_formats, finish_set_intersect,
  drm_format_set_intersect,
}
use westfield.Drm.Intersection.Formats.{
  kept_format, cons_option, common_formats, codes, is_some, elem-codes, kept_format-Kept,
  lookup-code, lookup-common, has_pair-common, intersect-common_formats,
}
use westfield.Drm.Intersection.Modifiers.{common_format, drm_format_intersect_lem}
use westfield.Drm.Membership.{has_pair, has-has_pair, has_pair-absent}
use westfield.Drm.Shape.{FormatFits, HasDistinctCodes, IsValid}

common_formats-shape :
    (xs ys : List DrmFormat)
    → All FormatFits xs
    → HasDistinctCodes xs
    → All FormatFits (common_formats xs ys)
      × HasDistinctCodes (common_formats xs ys)
      × (length (common_formats xs ys) ≤ length xs)
unfolding common_formats
common_formats-shape [] ys fits d = (tt, tt, omega arith)
common_formats-shape (a ∷ xs) ys fits d =
    let rest = common_formats-shape xs ys fits.1 d.1 in
    elim (Option-cases (kept_format ys a)) [
      | inl e ↦ rw e (rest.0, rest.1, omega arith)
      | inr (fmt, e) ↦
          let kept = kept_format-Kept ys a fmt fits.0.distinct e in
          rw e (
            (kept.fits, rest.0),
            (rw kept.code (lookup-common a.format xs ys fits.1 d.0), rest.1),
            omega arith,
          )
    ]

codes-IsDistinct : (xs : List DrmFormat) → HasDistinctCodes xs → IsDistinct (codes xs)
codes-IsDistinct [] d = tt
codes-IsDistinct (x ∷ xs) d = (ground (arith, elem-codes x.format xs), codes-IsDistinct xs d.1)

codes-common :
    (xs ys : List DrmFormat) (g : ℕ)
    → All FormatFits xs
    → elem g (codes (common_formats xs ys)) ≡ true
    → elem g (codes ys) ≡ true
unfolding common_formats elem
codes-common [] ys g fits h = ground arith
codes-common (a ∷ xs) ys g fits h = elim (Option-cases (kept_format ys a)) [
  | inl e ↦ codes-common xs ys g fits.1 (ground arith)
  | inr (fmt, e) ↦
      let kept = kept_format-Kept ys a fmt fits.0.distinct e in
      elim (Bool-cases (fmt.format == g)) [
        | inl c ↦
            let same : a.format ≡ g = ground (arith, kept.code) in
            elem-codes g ys ∙ rw (← same) (ap is_some kept.found)
        | inr c ↦ codes-common xs ys g fits.1 (ground arith)
      ]
]

length-codes : (xs : List DrmFormat) → length (codes xs) ≡ length xs
length-codes [] = refl
length-codes (x ∷ xs) = ap suc (length-codes xs)

length-common_formats :
    (xs ys : List DrmFormat)
    → All FormatFits xs
    → HasDistinctCodes xs
    → length (common_formats xs ys) ≤ smaller (length xs) (length ys)
length-common_formats xs ys fits d =
    let shape = common_formats-shape xs ys fits d in
    let right =
      length-le-of-subset (codes (common_formats xs ys)) (codes ys)
        (codes-IsDistinct (common_formats xs ys) shape.1) (λ k h. codes-common xs ys k fits h) in
    ground (arith, length-codes (common_formats xs ys), length-codes ys, shape.2, right)

length-cons_option :
    (o : Option DrmFormat) (xs : List DrmFormat) → length xs ≤ length (cons_option o xs)
length-cons_option none xs = omega arith
length-cons_option (some x) xs = omega arith

-- No assert fails and no store passes the array, whatever the allocations answer: what is stored is no
-- more than what the sets share.
intersect_formats-returns :
    (capacity : ℕ) (out xs ys : List DrmFormat) (fate : Fate)
    → All FormatFits xs
    → length out + length (common_formats xs ys) ≤ capacity
    → (intersect_formats capacity out xs ys fate).0 ≢ aborted
unfolding intersect_formats common_formats kept_format
intersect_formats-returns capacity out [] ys fate fits room h = cc
intersect_formats-returns capacity out (a ∷ xs) ys fate fits room h =
    let shared = common_formats xs ys in
    let fewer = length-cons_option (kept_format ys a) shared in
    elim (Option-cases (lookup_format ys a.format)) [
      | inl e ↦
          intersect_formats-returns capacity out xs ys fate fits.1 (omega arith) (ground arith)
      | inr (b, e) ↦
          let made = if (alloc fate).0 then common_format a b else none in
          let rest = (alloc fate).1 in
          let same =
            drm_format_intersect_lem a b fate (sym (lookup-code ys a.format b e)) fits.0.distinct in
          elim (Option-cases made) [
            | inl c ↦
                intersect_formats-returns capacity out xs ys rest fits.1 (omega arith)
                  (ground (arith, same))
            | inr (fmt, c) ↦
                let kept : kept_format ys a ≡ some fmt = ground arith in
                let more : length out + suc (length shared) ≤ capacity = ground (arith, kept) in
                intersect_formats-returns capacity (out ++ fmt ∷ []) xs ys rest fits.1
                  (omega (arith, more, length-append {0} out (fmt ∷ [])))
                  (ground (arith, same, more))
          ]
    ]

-- What drm_format_set_intersect promises of its result.
pub record Intersects (dst a b : DrmFormatSet) (r : Bool × DrmFormatSet) : Type 0 where
  pub stored :
      r.0 ≡ true
      → IsValid r.1
        × ((g k : ℕ)
            → drm_format_set_has r.1 g k ≡ (drm_format_set_has a g k && drm_format_set_has b g k))
  pub refused :
      r.0 ≡ false
      → (r.1 ≡ dst) × ((g k : ℕ) → (drm_format_set_has a g k && drm_format_set_has b g k) ≡ false)

finish-Intersects :
    (dst a b : DrmFormatSet) (formats : List DrmFormat) (capacity : ℕ)
    → length formats ≤ capacity
    → All FormatFits formats
    → HasDistinctCodes formats
    → ((g k : ℕ) → has_pair formats g k ≡ (has_pair a.formats g k && has_pair b.formats g k))
    → (r : Bool × DrmFormatSet) × (finish_set_intersect dst capacity (returned formats)
        ≡ returned r)
      × Intersects dst a b r
finish-Intersects dst a b [] capacity room fits codes same = (
  (false, dst),
  refl,
  record {
    stored = λ h. cc;
    refused = λ h. (
      refl,
      λ g k.
          rw (has-has_pair a g k, has-has_pair b g k, ← same g k)
            (has_pair-absent [] g k (unfold lookup_format in refl)),
    );
  },
)
finish-Intersects dst a b (f ∷ fs) capacity room fits codes same = (
  (true, record { capacity = capacity; formats = f ∷ fs }),
  refl,
  record {
    stored = λ h. (
      record { room = room; fits = fits; codes = codes },
      λ g k. rw (has-has_pair _ g k, has-has_pair a g k, has-has_pair b g k) (same g k),
    );
    refused = λ h. cc;
  },
)

-- With no failed allocation drm_format_set_intersect of a well-formed first set into another set than
-- the two returns, and no assert fails. If it returns true, the destination is well formed and has
-- exactly the pairs of both sets; if it returns false, the destination is what it was and the sets share
-- no pair.
pub drm_format_set_intersect-Intersects :
    (dst a b : DrmFormatSet)
    → IsValid a
    → (r : Bool × DrmFormatSet) × (drm_format_set_intersect false false dst a b []
        ≡ (returned r, []))
      × Intersects dst a b r
unfolding drm_format_set_intersect
drm_format_set_intersect-Intersects dst a b v =
    let shape = common_formats-shape a.formats b.formats v.fits v.codes in
    let formats = common_formats a.formats b.formats in
    let room = length-common_formats a.formats b.formats v.fits v.codes in
    let capacity = smaller (length a.formats) (length b.formats) in
    let (r, e, p) =
      finish-Intersects dst a b formats _ room shape.0 shape.1
        (λ g k. has_pair-common g k a.formats b.formats v.fits v.codes) in
    (
      r,
      rw (intersect-common_formats capacity [] a.formats b.formats v.fits (omega (arith, room)), e),
      p,
    )

finish-ne-aborted :
    (dst : DrmFormatSet) (capacity : ℕ) (c : Checked (List DrmFormat))
    → c ≢ aborted
    → finish_set_intersect dst capacity c ≢ aborted
finish-ne-aborted dst capacity (returned []) n h = cc
finish-ne-aborted dst capacity (returned (f ∷ fs)) n h = cc
finish-ne-aborted dst capacity aborted n h = n refl

intersect-ne-aborted :
    (dst a b : DrmFormatSet) (fate : Fate)
    → IsValid a
    → (drm_format_set_intersect false false dst a b fate).0 ≢ aborted
unfolding drm_format_set_intersect
intersect-ne-aborted dst a b fate v =
    let room = length-common_formats a.formats b.formats v.fits v.codes in
    let capacity = smaller (length a.formats) (length b.formats) in
    let returns =
      intersect_formats-returns capacity [] a.formats b.formats (alloc fate).1 v.fits
        (omega (arith, room)) in
    let finished = finish-ne-aborted dst capacity _ returns in
    elim (Bool-cases (alloc fate).0) [
      | inl g ↦ λ h. finished (ground arith)
      | inr g ↦ λ h. absurd (ground arith)
    ]

-- Whatever the allocations answer, a drm_format_set_intersect of a well-formed first set fails an assert
-- or stores past an array exactly when the destination is one of the two sets.
pub drm_format_set_intersect-aborted :
    (dst_is_a dst_is_b : Bool) (dst a b : DrmFormatSet) (fate : Fate)
    → IsValid a
    → ((drm_format_set_intersect dst_is_a dst_is_b dst a b fate).0 ≡ aborted)
      ↔ ((dst_is_a || dst_is_b) ≡ true)
drm_format_set_intersect-aborted true dst_is_b dst a b fate v =
    ((λ h. refl), (λ h. unfold drm_format_set_intersect in refl))
drm_format_set_intersect-aborted false true dst a b fate v =
    ((λ h. refl), (λ h. unfold drm_format_set_intersect in refl))
drm_format_set_intersect-aborted false false dst a b fate v =
    ((λ h. absurd (intersect-ne-aborted dst a b fate v h)), (λ h. absurd (ground arith)))
