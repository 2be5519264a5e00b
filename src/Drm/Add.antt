-- ===== src/Drm/Add.antt =====
-- drm_format_set_add of drm_format_set.c: what it adds, and the shape that it keeps.
use westfield.Prelude.{
  ℕ, elem-append, ◌≡◌, refl, inl, inr, Bool, true, false, ◌&&◌, ◌||◌, none, List, [], ◌∷◌, ◌++◌,
  Fate, arith, elem, ◌==◌, Option-cases,
}
use westfield.Drm.Format.{DrmFormat, drm_format_create, drm_format_add}
use westfield.Drm.FormatSet.{
  DrmFormatSet, lookup_format, format_set_get_ref, drm_format_set_has, append_format, add_format,
  drm_format_set_add,
}
use westfield.Drm.Membership.{has_pair, has-has_pair, lookup-append, ref-Found, ref-none}

-- What a call of drm_format_add left behind the pointer.
pub record Added (fmt : DrmFormat) (m : ℕ) (r : Bool × DrmFormat) : Type 0 where
  pub code : r.1.format ≡ fmt.format
  pub holds : r.0 ≡ true → (k : ℕ) → elem k r.1.modifiers ≡ (elem k fmt.modifiers || (m == k))
  pub kept : r.0 ≡ false → r.1 ≡ fmt

elem-push :
    (fmt : DrmFormat) (m k : ℕ)
    → elem k (fmt.modifiers ++ m ∷ []) ≡ (elem k fmt.modifiers || (m == k))
unfolding elem
elem-push fmt m k = ground (arith, elem-append k fmt.modifiers (m ∷ []))

elem-present : (xs : List ℕ) (m k : ℕ) → elem m xs ≡ true → elem k xs ≡ (elem k xs || (m == k))
unfolding elem
elem-present [] m k h = ground arith
elem-present (x ∷ xs) m k h = ground (arith, elem-present xs m k)

pub drm_format_add-Added :
    (fmt : DrmFormat) (m : ℕ) (fate : Fate) → Added fmt m (drm_format_add fmt m fate).0
unfolding drm_format_add
drm_format_add-Added fmt m fate = record {
  code = ground arith;
  holds = λ h k. ground (arith, elem-push fmt m k, elem-present fmt.modifiers m k);
  kept = λ h. ground arith;
}

-- What a call of drm_format_set_add left in the set.
pub record SetAdded (s : DrmFormatSet) (f m : ℕ) (r : Bool × DrmFormatSet) : Type 0 where
  pub holds :
      r.0 ≡ true
      → (g k : ℕ) → has_pair r.1.formats g k ≡ (has_pair s.formats g k || (f == g && m == k))
  pub kept : r.0 ≡ false → r.1 ≡ s

append-SetAdded :
    (s : DrmFormatSet) (f m : ℕ) (fmt : DrmFormat) (fate : Fate)
    → lookup_format s.formats f ≡ none
    → fmt.format ≡ f
    → ((k : ℕ) → elem k fmt.modifiers ≡ (m == k))
    → SetAdded s f m (append_format s fmt fate).0
unfolding append_format has_pair
append-SetAdded s f m fmt fate absent code holds = record {
  holds = λ h g k. ground (arith, lookup-append s.formats fmt g, holds k);
  kept = λ h. ground arith;
}

add_format-SetAdded :
    (s : DrmFormatSet) (f m : ℕ) (fate : Fate)
    → lookup_format s.formats f ≡ none
    → SetAdded s f m (add_format s f m fate).0
unfolding add_format drm_format_create drm_format_add elem
add_format-SetAdded s f m [] absent = append-SetAdded s f m _ [] absent refl (λ k. ground arith)
add_format-SetAdded s f m (true ∷ fate) absent =
    append-SetAdded s f m _ fate absent refl (λ k. ground arith)
add_format-SetAdded s f m (false ∷ fate) absent = record { holds = λ h. cc; kept = λ h. refl }

-- drm_format_set_add adds the pair to those that drm_format_set_has finds, and nothing else, if it
-- returns true; it leaves the set as it was if it returns false.
pub drm_format_set_add-SetAdded :
    (s : DrmFormatSet) (f m : ℕ) (fate : Fate) → SetAdded s f m (drm_format_set_add s f m fate).0
unfolding drm_format_set_add has_pair
drm_format_set_add-SetAdded s f m fate = elim (Option-cases (format_set_get_ref s.formats f)) [
  | inl e ↦ rw (e, drm_format_set_add) (add_format-SetAdded s f m fate (ref-none s.formats f e))
  | inr ((i, fmt), e) ↦
      let found = ref-Found s.formats f i fmt e in
      let added = drm_format_add-Added fmt m fate in
      let r = (drm_format_add fmt m fate).0 in
      rw (e, drm_format_set_add)
        (record {
          holds = λ h g k.
              ground
                (arith, found.written r.1 g, added.code, found.code, found.first, added.holds h k);
          kept = λ h. ground (arith, added.kept h, found.same);
        })
]

-- After drm_format_set_add returns true the set has exactly the pairs that it had and the new one;
-- after it returns false the set is what it was.
pub drm_format_set_has-add :
    (s : DrmFormatSet) (f m : ℕ) (fate : Fate)
    → let r = (drm_format_set_add s f m fate).0 in
      (r.0 ≡ true
        → (g k : ℕ) → drm_format_set_has r.1 g k ≡ (drm_format_set_has s g k || (f == g && m == k)))
      × (r.0 ≡ false → r.1 ≡ s)
drm_format_set_has-add s f m fate =
    let r = (drm_format_set_add s f m fate).0 in
    let added = drm_format_set_add-SetAdded s f m fate in
    (λ h g k. rw (has-has_pair r.1 g k, has-has_pair s g k) (added.holds h g k), added.kept)

drm_format_add_succeeds :
    (fmt : DrmFormat) (m : ℕ)
    → ((drm_format_add fmt m []).0.0 ≡ true) × ((drm_format_add fmt m []).1 ≡ [])
unfolding drm_format_add
drm_format_add_succeeds fmt m = ground arith

add_format_succeeds :
    (s : DrmFormatSet) (f m : ℕ)
    → ((add_format s f m []).0.0 ≡ true) × ((add_format s f m []).1 ≡ [])
unfolding add_format append_format drm_format_create drm_format_add
add_format_succeeds s f m = ground arith

-- With no failed allocation drm_format_set_add succeeds.
pub add_succeeds :
    (s : DrmFormatSet) (f m : ℕ)
    → ((drm_format_set_add s f m []).0.0 ≡ true) × ((drm_format_set_add s f m []).1 ≡ [])
unfolding drm_format_set_add
add_succeeds s f m = elim (Option-cases (format_set_get_ref s.formats f)) [
  | inl e ↦ rw (e, drm_format_set_add) (add_format_succeeds s f m)
  | inr ((i, fmt), e) ↦ rw (e, drm_format_set_add) (drm_format_add_succeeds fmt m)
]
