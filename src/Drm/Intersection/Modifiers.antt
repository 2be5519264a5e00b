-- ===== src/Drm/Intersection/Modifiers.antt =====
-- The modifiers that two formats share: what drm_format_intersect of drm_format_set.c computes.
use westfield.Prelude.{
  ℕ, ◌+◌, ◌≤◌, ◌≡◌, refl, true, ◌&&◌, Option, none, List, [], ◌∷◌, ◌++◌, Fate, arith, elem, length,
  length-append, ◌==◌, if◌then◌else◌, alloc, IsDistinct, length-le-of-subset,
}
use mathlib.Core.List.{append_assoc, append-nil}
use westfield.Drm.Format.{DrmFormat}
use westfield.Drm.Intersection.{
  returned, smaller, intersect_modifiers, finish_intersect, drm_format_intersect,
}

-- The entries of the first list that the second has.
unfoldable pub common : List ℕ → List ℕ → List ℕ
common [] ys = []
common (x ∷ xs) ys = if elem x ys then x ∷ common xs ys else common xs ys

elem-same : (x k : ℕ) (ys : List ℕ) → (x == k) ≡ true → elem x ys ≡ elem k ys
elem-same x k ys h = let same : x ≡ k = ground arith in rw same

pub elem-common : (k : ℕ) (xs ys : List ℕ) → elem k (common xs ys) ≡ (elem k xs && elem k ys)
unfolding common elem
elem-common k [] ys = refl
elem-common k (x ∷ xs) ys = ground (arith, elem-same x k ys, elem-common k xs ys)

pub common-IsDistinct : (xs ys : List ℕ) → IsDistinct xs → IsDistinct (common xs ys)
unfolding common elem
common-IsDistinct [] ys d = tt
common-IsDistinct (x ∷ xs) ys d = ground (arith, elem-common x xs ys, common-IsDistinct xs ys d.1)

length-common_left : (xs ys : List ℕ) → length (common xs ys) ≤ length xs
unfolding common
length-common_left [] ys = omega arith
length-common_left (x ∷ xs) ys = ground (arith, length-common_left xs ys)

pub length-common :
    (xs ys : List ℕ) → IsDistinct xs → length (common xs ys) ≤ smaller (length xs) (length ys)
length-common xs ys d =
    let left = length-common_left xs ys in
    let right =
      length-le-of-subset (common xs ys) ys (common-IsDistinct xs ys d)
        (λ k h. ground (arith, elem-common k xs ys)) in
    ground arith

intersect-common :
    (capacity : ℕ) (out xs ys : List ℕ)
    → length out + length (common xs ys) ≤ capacity
    → intersect_modifiers capacity out xs ys ≡ returned (out ++ common xs ys)
unfolding intersect_modifiers common
intersect-common capacity out [] ys h = simp append-nil
intersect-common capacity out (x ∷ xs) ys h = ground (
  arith,
  intersect-common capacity (out ++ x ∷ []) xs ys,
  intersect-common capacity out xs ys,
  length-append {0} out (x ∷ []),
  append_assoc out (x ∷ []) (common xs ys),
)

-- What drm_format_intersect returns for two formats of one code when its allocation succeeds.
abbrev pub common_format : DrmFormat → DrmFormat → Option DrmFormat
common_format a b =
    finish_intersect a.format (smaller (length a.modifiers) (length b.modifiers))
      (common a.modifiers b.modifiers)

pub drm_format_intersect_lem :
    (a b : DrmFormat) (fate : Fate)
    → a.format ≡ b.format
    → IsDistinct a.modifiers
    → drm_format_intersect a b fate
      ≡ (returned (if (alloc fate).0 then common_format a b else none), (alloc fate).1)
unfolding drm_format_intersect
drm_format_intersect_lem a b fate code d =
    let capacity = smaller (length a.modifiers) (length b.modifiers) in
    let fits = length-common a.modifiers b.modifiers d in
    let loop = intersect-common capacity [] a.modifiers b.modifiers (omega arith) in
    ground (arith, loop)
