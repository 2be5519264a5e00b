-- ===== src/WlDrm/Primed.antt =====
-- The descriptor of a request create_prime_buffer of wlr_drm.c, from the request to the end of the
-- buffer.
use westfield.Buffer.Drop.{Ending, close_fd, send_release}
use westfield.Buffer.Ended.{frees}
use westfield.Dmabuf.Attributes.{dmabuf_attributes_finish}
use westfield.Drm.Intersection.{returned}
use westfield.Prelude.{
  ℕ, ◌≡◌, refl, ℤ, Bool, true, false, ◌&&◌, none, some, List, [], ◌∷◌, ◌++◌, Fate, alloc,
  Bool-cases, inl, inr, arith,
}
use westfield.WlDrm.Buffers.{
  DrmBuffer, create_prime_buffer, Reply, close, Handled, prime_attributes,
  drm_handle_create_prime_buffer, drm_impl, drm_buffer_destroy, drm_buffer_drop,
  drm_buffer_handle_resource_destroy, drm_buffer_handle_release,
}

abbrev pub closed_by_replies : List Reply → List ℤ
closed_by_replies [] = []
closed_by_replies (close fd ∷ es) = fd ∷ closed_by_replies es
closed_by_replies (_ ∷ es) = closed_by_replies es

abbrev pub closed_at_end : List Ending → List ℤ
closed_at_end [] = []
closed_at_end (close_fd fd ∷ es) = fd ∷ closed_at_end es
closed_at_end (_ ∷ es) = closed_at_end es

-- What becomes of the descriptor and the buffer.
pub record Primed (fd : ℤ) (r : Handled) : Type 0 where
  pub refused : r.buffer ≡ none → closed_by_replies r.replies ≡ fd ∷ []
  pub made :
      (b : DrmBuffer)
      → r.buffer ≡ some b
      → (es : List Ending) × (drm_buffer_handle_resource_destroy b ≡ returned es)
        × (closed_by_replies r.replies ++ closed_at_end es ≡ fd ∷ [])
        × (frees es ≡ 1)
        × (drm_buffer_handle_release b ≡ send_release ∷ [])
        × (drm_buffer_handle_release (record b { resource = false }) ≡ [])

-- Whatever the heap and libwayland answer, the descriptor of a request create_prime_buffer is closed
-- exactly once: by the request if it makes no buffer, and otherwise when the resource of the buffer
-- is destroyed, which frees the buffer once. Releases are sent to the client until then, and not
-- after.
pub drm_impl-Primed :
    (mod_invalid : ℕ) (created : Bool) (fd width height : ℤ) (format : ℕ) (offset0 stride0 : ℤ)
    (fate : Fate)
    → Primed fd
        (drm_impl mod_invalid created
          (create_prime_buffer fd width height format offset0 stride0)
          fate).0
unfolding drm_impl drm_handle_create_prime_buffer drm_buffer_handle_resource_destroy drm_buffer_drop
    drm_buffer_destroy drm_buffer_handle_release dmabuf_attributes_finish
drm_impl-Primed mod_invalid created fd width height format offset0 stride0 fate =
    let attributes = prime_attributes mod_invalid fd width height format offset0 stride0 in
    let new : DrmBuffer = record {
      width = width;
      height = height;
      dropped = false;
      resource = true;
      dmabuf = attributes;
    } in
    elim (Bool-cases ((alloc fate).0 && created)) [
      | inl e ↦ record {
        refused = λ h. absurd (ground arith);
        made = λ b h.
            let same : b ≡ new = ground arith in
            let quiet : closed_by_replies
                  (drm_handle_create_prime_buffer mod_invalid created fd width height format offset0
                    stride0 fate).0.replies
                ≡ [] =
              ground arith in
            rw same (_, refl, rw quiet refl, refl, refl, refl);
      }
      | inr e ↦ record { refused = λ h. ground arith; made = λ b h. absurd (ground arith) }
    ]
