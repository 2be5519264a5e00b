-- ===== src/WlDrm/Announced.antt =====
-- The formats that drm_bind of wlr_drm.c announces.
use westfield.Drm.Format.{DrmFormat, drm_format_has}
use westfield.Drm.FormatSet.{lookup_format, drm_format_set_has}
use westfield.Drm.Membership.{has_pair, has-has_pair, has_pair-cons, has_pair-absent}
use westfield.Drm.Shape.{HasDistinctCodes, IsValid}
use westfield.Feedback.Announce.{
  linux_dmabuf_bind, linux_dmabuf_send_formats, linux_dmabuf_send_modifiers,
}
use westfield.Feedback.Announced.{plain_formats}
use westfield.Prelude.{
  ℕ, ◌<◌, ◌≡◌, refl, inl, inr, true, List, [], ◌∷◌, elem, ◌==◌, Bool-cases, arith,
}
use westfield.WlDrm.Global.{WlDrm, DrmEvent, send_format, bind_formats, drm_bind}

-- The formats of a list of events.
unfoldable pub announced : List DrmEvent → List ℕ
announced [] = []
announced (send_format format ∷ es) = format ∷ announced es
announced (_ ∷ es) = announced es

bind_formats-has :
    (mod_invalid : ℕ) (fmts : List DrmFormat) (g : ℕ)
    → HasDistinctCodes fmts
    → elem g (announced (bind_formats mod_invalid fmts)) ≡ has_pair fmts g mod_invalid
unfolding bind_formats announced elem drm_format_has
bind_formats-has mod_invalid [] g d = unfold has_pair lookup_format in refl
bind_formats-has mod_invalid (fmt ∷ fmts) g d =
    let rest = bind_formats-has mod_invalid fmts g d.1 in
    let split = has_pair-cons fmt fmts g mod_invalid in
    elim (Bool-cases (fmt.format == g)) [
      | inr e ↦ ground (arith, rest, split)
      | inl e ↦
          let same : fmt.format ≡ g = ground arith in
          let absent = has_pair-absent fmts g mod_invalid (rw (← same) d.0) in
          ground (arith, rest, split, absent)
    ]

-- What a client of wl_drm is told of formats with distinct codes.
pub drm_bind-has :
    (mod_invalid : ℕ) (drm : WlDrm) (g : ℕ)
    → HasDistinctCodes drm.formats.formats
    → elem g (announced (drm_bind mod_invalid true drm))
      ≡ has_pair drm.formats.formats g mod_invalid
unfolding drm_bind announced
drm_bind-has mod_invalid drm g d = bind_formats-has mod_invalid drm.formats.formats g d

bind_formats-plain :
    (mod_invalid mod_linear version : ℕ) (fmts : List DrmFormat)
    → version < 3
    → announced (bind_formats mod_invalid fmts)
      ≡ plain_formats (linux_dmabuf_send_formats mod_invalid mod_linear version fmts)
unfolding bind_formats announced plain_formats linux_dmabuf_send_formats linux_dmabuf_send_modifiers
bind_formats-plain mod_invalid mod_linear version [] old = refl
bind_formats-plain mod_invalid mod_linear version (fmt ∷ fmts) old =
    let rest = bind_formats-plain mod_invalid mod_linear version fmts old in
    elim (Bool-cases (drm_format_has fmt mod_invalid)) [
      | inl e ↦ ground (arith, rest)
      | inr e ↦ ground (arith, rest)
    ]

-- A client that binds wl_drm, in a valid set, is told the name of the node, that prime buffers work,
-- and exactly the formats that drm_format_set_has finds with the implicit modifier, and these are
-- those that a client of zwp_linux_dmabuf_v1 below version 3 is told of the same formats.
pub drm_bind-announced :
    (mod_invalid mod_linear version : ℕ) (drm : WlDrm)
    → IsValid drm.formats
    → version < 3
    → let es = drm_bind mod_invalid true drm in
      ((g : ℕ) → elem g (announced es) ≡ drm_format_set_has drm.formats g mod_invalid)
      × (announced es
          ≡ plain_formats (linux_dmabuf_bind mod_invalid mod_linear true drm.formats version))
unfolding drm_bind linux_dmabuf_bind
drm_bind-announced mod_invalid mod_linear version drm v old =
    let fmts = drm.formats.formats in
    let skip : announced (drm_bind mod_invalid true drm)
        ≡ announced (bind_formats mod_invalid fmts) =
      unfold announced in refl in
    let plain = bind_formats-plain mod_invalid mod_linear version fmts old in
    (
      λ g. rw (has-has_pair drm.formats g mod_invalid) (drm_bind-has mod_invalid drm g v.codes),
      rw skip (ground (arith, plain)),
    )
