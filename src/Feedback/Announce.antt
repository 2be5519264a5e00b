-- ===== src/Feedback/Announce.antt =====
-- What a client is told when it binds zwp_linux_dmabuf_v1 or asks for feedback: linux_dmabuf_bind,
-- linux_dmabuf_send_modifiers, feedback_send and the request get_default_feedback of
-- wlr_linux_dmabuf_v1.c. The two special modifiers of drm_fourcc.h are parameters.
use westfield.Drm.Format.{DrmFormat, drm_format_has}
use westfield.Drm.FormatSet.{DrmFormatSet}
use westfield.Feedback.Compile.{CompiledTranche, CompiledFeedback}
use westfield.Prelude.{
  ℕ, ◌/◌, ◌%◌, ◌^◌, ℤ, Bool, ◌&&◌, Option, none, some, List, [], ◌∷◌, ◌++◌, length, ltb, ◌==◌,
  if◌then◌else◌,
}

-- The events of the two interfaces; a modifier goes out as its high and its low half.
pub data Event : Type 0 where
  send_format : ℕ → Event
  send_modifier : ℕ → ℕ → ℕ → Event
  send_main_device : ℕ → Event
  send_format_table : ℤ → ℕ → Event
  send_tranche_target_device : ℕ → Event
  send_tranche_flags : ℕ → Event
  send_tranche_formats : List ℕ → Event
  send_tranche_done : Event
  send_done : Event
  post_no_memory : Event

-- `mod >> 32` and `mod & 0xFFFFFFFF`, as numbers of 32 bits
abbrev pub high_half : ℕ → ℕ
high_half modifier = modifier / 2 ^ 32 % 2 ^ 32

abbrev pub low_half : ℕ → ℕ
low_half modifier = modifier % 2 ^ 32

abbrev pub modifier_since_version : ℕ
modifier_since_version = 3

abbrev pub default_feedback_since_version : ℕ
default_feedback_since_version = 4

-- The last loop of linux_dmabuf_send_modifiers.
unfoldable pub send_each : ℕ → List ℕ → List Event
send_each format [] = []
send_each format (m ∷ ms) = send_modifier format (high_half m) (low_half m) ∷ send_each format ms

module _ (mod_invalid mod_linear : ℕ) where
  -- Only the two special modifiers.
  unfoldable pub is_implicit_only : DrmFormat → Bool
  is_implicit_only fmt =
      length fmt.modifiers == 2 && drm_format_has fmt mod_invalid && drm_format_has fmt mod_linear

  unfoldable pub linux_dmabuf_send_modifiers : ℕ → DrmFormat → List Event
  unfolding is_implicit_only send_each
  linux_dmabuf_send_modifiers version fmt =
      if ltb version modifier_since_version
      then if drm_format_has fmt mod_invalid then send_format fmt.format ∷ [] else []
      else if is_implicit_only fmt
      then send_modifier fmt.format (high_half mod_invalid) (low_half mod_invalid) ∷ []
      else send_each fmt.format fmt.modifiers

  unfoldable pub linux_dmabuf_send_formats : ℕ → List DrmFormat → List Event
  linux_dmabuf_send_formats version [] = []
  linux_dmabuf_send_formats version (fmt ∷ fmts) =
      linux_dmabuf_send_modifiers version fmt ++ linux_dmabuf_send_formats version fmts

  -- `created` says whether wl_resource_create returns a resource.
  unfoldable pub linux_dmabuf_bind : Bool → DrmFormatSet → ℕ → List Event
  linux_dmabuf_bind created default_formats version =
      if created
      then if ltb version default_feedback_since_version
        then linux_dmabuf_send_formats version default_formats.formats
        else []
      else post_no_memory ∷ []

unfoldable pub feedback_tranche_send : CompiledTranche → List Event
feedback_tranche_send t =
    send_tranche_target_device t.target_device
    ∷ send_tranche_flags t.flags
    ∷ send_tranche_formats t.indices
    ∷ send_tranche_done
    ∷ []

unfoldable pub send_tranches : List CompiledTranche → List Event
send_tranches [] = []
send_tranches (t ∷ ts) = feedback_tranche_send t ++ send_tranches ts

unfoldable pub feedback_send : CompiledFeedback → List Event
feedback_send c =
    send_main_device c.main_device
    ∷ send_format_table c.table_fd c.table_size
    ∷ (send_tranches c.tranches ++ send_done ∷ [])

unfoldable pub linux_dmabuf_get_default_feedback : Bool → CompiledFeedback → List Event
linux_dmabuf_get_default_feedback created default_feedback =
    if created then feedback_send default_feedback else post_no_memory ∷ []

-- A surface has feedback of its own, or it uses the default.
unfoldable pub surface_get_feedback : Option CompiledFeedback → CompiledFeedback → CompiledFeedback
surface_get_feedback none default_feedback = default_feedback
surface_get_feedback (some own) default_feedback = own
