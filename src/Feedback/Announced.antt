-- ===== src/Feedback/Announced.antt =====
-- The events of Feedback/Announce against the formats and the feedback that they are about.
use westfield.Drm.Format.{DrmFormat, drm_format_has}
use westfield.Drm.FormatSet.{DrmFormatSet}
use westfield.Feedback.Announce.{
  Event, send_format, send_modifier, high_half, low_half, send_each, is_implicit_only,
  linux_dmabuf_send_modifiers, linux_dmabuf_send_formats, linux_dmabuf_bind,
}
use westfield.Feedback.Table.{TableEntry, format_entries}
use westfield.Prelude.{
  ℕ, ◌+◌, ◌*◌, ◌^◌, ◌<◌, ◌≤◌, ◌≡◌, ◌≢◌, refl, true, ◌&&◌, ◌||◌, List, [], ◌∷◌, ◌++◌, All,
  if◌then◌else◌, arith, Bool-cases, inl, inr, elem, length, ◌==◌,
}

-- The pairs that a client learns from a list of events: it joins the halves of each modifier.
unfoldable pub learned : List Event → List TableEntry
learned [] = []
learned (send_modifier format hi lo ∷ es) = (format, hi * 2 ^ 32 + lo) ∷ learned es
learned (_ ∷ es) = learned es

-- The formats that a client learns without modifiers.
unfoldable pub plain_formats : List Event → List ℕ
plain_formats [] = []
plain_formats (send_format format ∷ es) = format ∷ plain_formats es
plain_formats (_ ∷ es) = plain_formats es

learned-append : (es fs : List Event) → learned (es ++ fs) ≡ learned es ++ learned fs
unfolding learned
learned-append [] fs = refl
learned-append (send_modifier f h l ∷ es) fs = ground (arith, learned-append es fs)
learned-append (_ ∷ es) fs = learned-append es fs

plain-append :
    (es fs : List Event) → plain_formats (es ++ fs) ≡ plain_formats es ++ plain_formats fs
unfolding plain_formats
plain-append [] fs = refl
plain-append (send_format f ∷ es) fs = ground (arith, plain-append es fs)
plain-append (_ ∷ es) fs = plain-append es fs

-- Numbers of 64 bits.
abbrev pub AreModifiers : List ℕ → Type 0
AreModifiers = All (λ m. m < 2 ^ 64)

learned-each :
    (format : ℕ) (ms : List ℕ)
    → AreModifiers ms
    → learned (send_each format ms) ≡ format_entries format ms
unfolding learned send_each
learned-each format [] h = refl
learned-each format (m ∷ ms) h =
    let joined : high_half m * 2 ^ 32 + low_half m ≡ m = omega arith in
    rw (joined, learned-each format ms h.1)

plain-each : (format : ℕ) (ms : List ℕ) → plain_formats (send_each format ms) ≡ []
unfolding plain_formats send_each
plain-each format [] = refl
plain-each format (m ∷ ms) = plain-each format ms

module _ (mod_invalid mod_linear : ℕ) where
  -- The pairs of a format that go out one by one: a format whose only two modifiers are the special
  -- ones, in either order, goes out with the implicit one alone, and every other with all it has.
  abbrev pub offered_pairs : ℕ → List ℕ → List TableEntry
  offered_pairs format [] = []
  offered_pairs format (m ∷ []) = (format, m) ∷ []
  offered_pairs format (m ∷ n ∷ []) =
      if (m == mod_invalid && n == mod_linear) || (m == mod_linear && n == mod_invalid)
      then (format, mod_invalid) ∷ []
      else (format, m) ∷ (format, n) ∷ []
  offered_pairs format (m ∷ n ∷ o ∷ ms) = format_entries format (m ∷ n ∷ o ∷ ms)

  unfoldable pub all_offered : List DrmFormat → List TableEntry
  all_offered [] = []
  all_offered (fmt ∷ fmts) = offered_pairs fmt.format fmt.modifiers ++ all_offered fmts

  -- The formats with the implicit modifier.
  unfoldable pub implicit_formats : List DrmFormat → List ℕ
  implicit_formats [] = []
  implicit_formats (fmt ∷ fmts) =
      if elem mod_invalid fmt.modifiers
      then fmt.format ∷ implicit_formats fmts
      else implicit_formats fmts

-- The test of the code against the shape of the list. The two special modifiers differ.
offered_pairs-lem :
    (mod_invalid mod_linear : ℕ)
    → mod_invalid ≢ mod_linear
    → (fmt : DrmFormat)
    → offered_pairs mod_invalid mod_linear fmt.format fmt.modifiers ≡ (
        if is_implicit_only mod_invalid mod_linear fmt
        then (fmt.format, mod_invalid) ∷ []
        else format_entries fmt.format fmt.modifiers)
unfolding is_implicit_only drm_format_has elem
offered_pairs-lem mod_invalid mod_linear differ fmt = shape fmt.format fmt.modifiers
  where
    shape :
        (format : ℕ) (ms : List ℕ)
        → offered_pairs mod_invalid mod_linear format ms ≡ (
            if length ms == 2 && elem mod_invalid ms && elem mod_linear ms
            then (format, mod_invalid) ∷ []
            else format_entries format ms)
    shape format [] = refl
    shape format (m ∷ []) = refl
    shape format (m ∷ n ∷ []) = ground arith
    shape format (m ∷ n ∷ o ∷ ms) = ground arith

module _ (mod_invalid mod_linear : ℕ) (small : mod_invalid < 2 ^ 64)
    (differ : mod_invalid ≢ mod_linear) where
  learned-modifiers :
      (version : ℕ) (fmt : DrmFormat)
      → 3 ≤ version
      → AreModifiers fmt.modifiers
      → learned (linux_dmabuf_send_modifiers mod_invalid mod_linear version fmt)
        ≡ offered_pairs mod_invalid mod_linear fmt.format fmt.modifiers
  unfolding learned linux_dmabuf_send_modifiers
  learned-modifiers version fmt v h =
      let joined : high_half mod_invalid * 2 ^ 32 + low_half mod_invalid ≡ mod_invalid =
        omega arith in
      let pairs = offered_pairs-lem mod_invalid mod_linear differ fmt in
      ground (arith, joined, pairs, learned-each fmt.format fmt.modifiers h)

  learned-formats :
      (version : ℕ) (fmts : List DrmFormat)
      → 3 ≤ version
      → All (λ fmt. AreModifiers fmt.modifiers) fmts
      → learned (linux_dmabuf_send_formats mod_invalid mod_linear version fmts)
        ≡ all_offered mod_invalid mod_linear fmts
  unfolding linux_dmabuf_send_formats all_offered
  learned-formats version [] v h = unfold learned in refl
  learned-formats version (fmt ∷ fmts) v h = rw (
    learned-append (linux_dmabuf_send_modifiers mod_invalid mod_linear version fmt)
        (linux_dmabuf_send_formats mod_invalid mod_linear version fmts),
    learned-modifiers version fmt v h.0,
    learned-formats version fmts v h.1,
  )

  plain-modifiers :
      (version : ℕ) (fmt : DrmFormat)
      → 3 ≤ version
      → plain_formats (linux_dmabuf_send_modifiers mod_invalid mod_linear version fmt) ≡ []
  unfolding plain_formats linux_dmabuf_send_modifiers
  plain-modifiers version fmt v = ground (arith, plain-each fmt.format fmt.modifiers)

  plain-formats :
      (version : ℕ) (fmts : List DrmFormat)
      → 3 ≤ version
      → plain_formats (linux_dmabuf_send_formats mod_invalid mod_linear version fmts) ≡ []
  unfolding linux_dmabuf_send_formats
  plain-formats version [] v = unfold plain_formats in refl
  plain-formats version (fmt ∷ fmts) v = rw (
    plain-append (linux_dmabuf_send_modifiers mod_invalid mod_linear version fmt)
        (linux_dmabuf_send_formats mod_invalid mod_linear version fmts),
    plain-modifiers version fmt v,
    plain-formats version fmts v,
  )

  old-formats :
      (version : ℕ) (fmts : List DrmFormat)
      → version < 3
      → (learned (linux_dmabuf_send_formats mod_invalid mod_linear version fmts) ≡ [])
        × (plain_formats (linux_dmabuf_send_formats mod_invalid mod_linear version fmts)
            ≡ implicit_formats mod_invalid mod_linear fmts)
  unfolding linux_dmabuf_send_formats linux_dmabuf_send_modifiers implicit_formats learned
      plain_formats drm_format_has
  old-formats version [] v = (refl, refl)
  old-formats version (fmt ∷ fmts) v =
      let rest = old-formats version fmts v in
      elim (Bool-cases (elem mod_invalid fmt.modifiers)) [
        | inl e ↦ (ground (arith, rest.0), ground (arith, rest.1))
        | inr e ↦ (ground (arith, rest.0), ground (arith, rest.1))
      ]

  -- What a client that binds the global learns, where the special modifiers differ and every modifier
  -- has 64 bits. Below version 3 these are the formats with the implicit modifier, and no modifiers.
  -- At version 3 these are the pairs of the set, the halves of a modifier joined, save that a format
  -- whose modifiers are just the two special ones comes with the implicit one alone, and no format
  -- without a modifier. From version 4 on nothing is sent.
  pub linux_dmabuf_bind-learned :
      (version : ℕ) (s : DrmFormatSet)
      → All (λ fmt. AreModifiers fmt.modifiers) s.formats
      → let es = linux_dmabuf_bind mod_invalid mod_linear true s version in
        (version < 3
          → (learned es ≡ [])
            × (plain_formats es ≡ implicit_formats mod_invalid mod_linear s.formats))
        × (version ≡ 3
            → (learned es ≡ all_offered mod_invalid mod_linear s.formats) × (plain_formats es ≡ []))
        × (4 ≤ version → es ≡ [])
  unfolding linux_dmabuf_bind
  linux_dmabuf_bind-learned version s h = (
    λ v.
        let sent = old-formats version s.formats v in
        (ground (arith, sent.0), ground (arith, sent.1)),
    λ v.
        let enough : 3 ≤ version = omega arith in
        (
          ground (arith, learned-formats version s.formats enough h),
          ground (arith, plain-formats version s.formats enough),
        ),
    λ v. ground arith,
  )
