-- ===== src/WlDrm/Buffers.antt =====
-- The requests of wl_drm and the buffers that they make: drm_handle_authenticate,
-- drm_handle_create_buffer, drm_handle_create_planar_buffer, drm_handle_create_prime_buffer,
-- buffer_destroy, buffer_handle_release and buffer_handle_resource_destroy of wlr_drm.c. The last
-- three carry drm_ in front, since wlr_linux_dmabuf_v1.c has functions of the same names.
use westfield.Buffer.Drop.{
  Ending, emit_destroy, finish_addons, clear_user_data, remove_release, free_buffer, send_release,
  close_fd,
}
use westfield.Dmabuf.Attributes.{DmabufAttributes, dmabuf_attributes_finish}
use westfield.Drm.Intersection.{Checked, returned, aborted}
use westfield.Prelude.{
  ℕ, ℤ, pos, to_unsigned, Bool, true, false, Option, none, some, List, [], ◌∷◌, ◌++◌, map, Mem,
  alloc, ◌==◌, if◌then◌else◌,
}

-- struct wlr_drm_buffer and its base; `resource` says whether the pointer is set.
pub record DrmBuffer : Type 0 where
  pub width : ℤ
  pub height : ℤ
  pub dropped : Bool
  pub resource : Bool
  pub dmabuf : DmabufAttributes

-- The requests with what the handlers read of their arguments: the descriptor, the width, the
-- height, the format, and the offset and the stride of the first plane.
pub data Request : Type 0 where
  authenticate : ℕ → Request
  create_buffer create_planar_buffer : ℕ → Request
  create_prime_buffer : ℤ → ℤ → ℤ → ℕ → ℤ → ℤ → Request

-- What a handler does besides making a buffer.
pub data Reply : Type 0 where
  send_authenticated post_invalid_name post_no_memory : Reply
  free_new_buffer : Reply
  close : ℤ → Reply

pub record Handled : Type 0 where
  pub buffer : Option DrmBuffer
  pub replies : List Reply

module _ (mod_invalid : ℕ) where
  -- The initialiser sets the first plane; the other entries are 0. The conversions to uint32_t wrap.
  abbrev pub prime_attributes : ℤ → ℤ → ℤ → ℕ → ℤ → ℤ → DmabufAttributes
  prime_attributes fd width height format offset0 stride0 = record {
    width = width;
    height = height;
    format = format;
    modifier = mod_invalid;
    n_planes = 1;
    offset = λ i. if i == 0 then to_unsigned 32 offset0 else 0;
    stride = λ i. if i == 0 then to_unsigned 32 stride0 else 0;
    fd = λ i. if i == 0 then fd else pos 0;
  }

  -- `created` says whether wl_resource_create returns a resource.
  unfoldable pub drm_handle_create_prime_buffer : Bool → ℤ → ℤ → ℤ → ℕ → ℤ → ℤ → Mem Handled
  drm_handle_create_prime_buffer created fd width height format offset0 stride0 fate =
      let (got, rest) = alloc fate in
      let dmabuf = prime_attributes fd width height format offset0 stride0 in
      let result : Handled =
        if got
        then if created
          then record {
            buffer = some (record {
              width = width;
              height = height;
              dropped = false;
              resource = true;
              dmabuf = dmabuf;
            });
            replies = [];
          }
          else record { buffer = none; replies = free_new_buffer ∷ close fd ∷ post_no_memory ∷ [] }
        else record { buffer = none; replies = close fd ∷ post_no_memory ∷ [] } in
      (result, rest)

  abbrev pub drm_handle_authenticate : Handled
  drm_handle_authenticate = record { buffer = none; replies = send_authenticated ∷ [] }

  abbrev pub drm_handle_create_buffer : Handled
  drm_handle_create_buffer = record { buffer = none; replies = post_invalid_name ∷ [] }

  abbrev pub drm_handle_create_planar_buffer : Handled
  drm_handle_create_planar_buffer = record { buffer = none; replies = post_invalid_name ∷ [] }

  -- drm_impl
  unfoldable pub drm_impl : Bool → Request → Mem Handled
  drm_impl created (authenticate id) fate = (drm_handle_authenticate, fate)
  drm_impl created (create_buffer name) fate = (drm_handle_create_buffer, fate)
  drm_impl created (create_planar_buffer name) fate = (drm_handle_create_planar_buffer, fate)
  drm_impl created (create_prime_buffer fd width height format offset0 stride0) fate =
      drm_handle_create_prime_buffer created fd width height format offset0 stride0 fate

unfoldable pub drm_buffer_destroy : DrmBuffer → List Ending
drm_buffer_destroy b =
    (if b.resource then clear_user_data ∷ [] else [])
    ++ map close_fd (dmabuf_attributes_finish b.dmabuf).1
    ++ remove_release ∷ free_buffer ∷ []

-- westfield_buffer_drop and buffer_consider_destroy of westfield-buffer.c, for this kind of buffer.
unfoldable pub drm_buffer_drop : DrmBuffer → Checked (List Ending)
drm_buffer_drop b =
    if b.dropped
    then aborted
    else returned (emit_destroy ∷ finish_addons ∷ drm_buffer_destroy (record b { dropped = true }))

unfoldable pub drm_buffer_handle_resource_destroy : DrmBuffer → Checked (List Ending)
drm_buffer_handle_resource_destroy b = drm_buffer_drop (record b { resource = false })

unfoldable pub drm_buffer_handle_release : DrmBuffer → List Ending
drm_buffer_handle_release b = if b.resource then send_release ∷ [] else []
