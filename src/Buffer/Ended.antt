-- ===== src/Buffer/Ended.antt =====
-- What the end of a buffer closes and frees (westfield-buffer.c, wlr_linux_dmabuf_v1.c).
use westfield.Buffer.Drop.{
  Ending, close_fd, free_buffer, emit_destroy, finish_addons, remove_release, dmabuf_buffer,
  buffer_destroy, buffer_consider_destroy, westfield_buffer_drop, buffer_handle_resource_destroy,
}
use westfield.Dmabuf.Attributes.{DmabufAttributes, dmabuf_attributes_finish}
use westfield.Dmabuf.Ownership.{bit, held, closed}
use westfield.Dmabuf.Params.{close}
use westfield.Dmabuf.Release.{IsContiguous, closed-finish}
use westfield.Drm.Intersection.{returned}
use westfield.Prelude.{ℕ, ◌+◌, ◌≡◌, refl, ℤ, is_nonneg, eq_ℤ, true, List, [], ◌∷◌, ◌++◌, map, arith}

-- How often a descriptor is closed, and the buffer freed.
abbrev pub closings : ℤ → List Ending → ℕ
closings z [] = 0
closings z (close_fd fd ∷ es) = bit (eq_ℤ z fd) + closings z es
closings z (_ ∷ es) = closings z es

abbrev pub frees : List Ending → ℕ
frees [] = 0
frees (free_buffer ∷ es) = 1 + frees es
frees (_ ∷ es) = frees es

closings-map :
    (z : ℤ) (fds : List ℤ) (es : List Ending)
    → closings z (map close_fd fds ++ es) ≡ closed z (map close fds) + closings z es
closings-map z [] es = omega arith
closings-map z (fd ∷ fds) es = omega (arith, closings-map z fds es)

frees-map : (fds : List ℤ) (es : List Ending) → frees (map close_fd fds ++ es) ≡ frees es
frees-map [] es = refl
frees-map (fd ∷ fds) es = frees-map fds es

-- When the resource of a buffer that params_create_common made is destroyed, the buffer is destroyed:
-- each descriptor of its planes is closed as often as they hold it, and the buffer is freed once.
pub buffer_handle_resource_destroy-closed :
    (a : DmabufAttributes) (z : ℤ)
    → IsContiguous a
    → is_nonneg z ≡ true
    → (es : List Ending) × (buffer_handle_resource_destroy (dmabuf_buffer a) ≡ returned es)
      × (closings z es ≡ held z a.fd)
      × (frees es ≡ 1)
unfolding buffer_handle_resource_destroy westfield_buffer_drop buffer_consider_destroy
    buffer_destroy
buffer_handle_resource_destroy-closed a z c h =
    let fds = (dmabuf_attributes_finish a).1 in
    let tail = remove_release ∷ free_buffer ∷ [] in
    (
      emit_destroy ∷ finish_addons ∷ (map close_fd fds ++ tail),
      refl,
      omega (arith, closings-map z fds tail, closed-finish z a c h),
      frees-map fds tail,
    )
