-- ===== src/Tests/Dmabuf.antt =====
-- Requests on params objects at concrete planes.
use westfield.Dmabuf.Accept.{Acceptable, made_buffer, params_create_common-buffer}
use westfield.Dmabuf.Attributes.{Array, DmabufAttributes, write}
use westfield.Dmabuf.Create.{Environment, check_planes, params_create_common}
use westfield.Dmabuf.Imports.{IsImportable}
use westfield.Dmabuf.Ownership.{AddRequest, add_all, Balanced, add_all-Balanced, closed, held}
use westfield.Dmabuf.Params.{
  BufferParams, fresh_params, params_add, add_plane, params_handle_resource_destroy, close,
  post_error, plane_set,
}
use westfield.Dmabuf.Planes.{IsValid, check_planes-prefix, fresh_params-IsValid}
use westfield.Dmabuf.Release.{Settles, params_create_common-Settles, params_create_common-loses}
use westfield.Prelude.{
  ℕ, ◌≡◌, ◌<◌, ◌↔◌, refl, ℤ, pos, negsuc, minus_one, is_nonneg, Bool, true, false, some, none, List,
  [], ◌∷◌, ltb, ◌==◌, arith, ◌^◌,
}

-- Descriptor 7 is a file of 4096 bytes, and every other cannot be seeked.
abbrev kernel : Environment
kernel = record {
  seek_end = λ fd. elim fd [
    | pos n ↦ westfield.Prelude.if◌then◌else◌ (n == 7) (pos 4096) minus_one
    | negsuc n ↦ minus_one
  ];
  prime_fd_to_handle = λ fd. some 1;
  close_buffer_handle = λ h. true;
  buffer_allocated = true;
  resource_created = true;
}

-- One plane, at index `plane`, held by descriptor 7.
abbrev one_plane : ℕ → BufferParams
one_plane plane = record {
  attributes = record {
    width = pos 0;
    height = pos 0;
    format = 0;
    modifier = 5;
    n_planes = 1;
    offset = write (λ i. 0) plane 0;
    stride = write (λ i. 0) plane 64;
    fd = write (λ i. minus_one) plane (pos 7);
  };
  has_modifier = true;
}

abbrev requests : List AddRequest
requests =
    record { fd = pos 7; plane = 0; offset = 0; stride = 64; modifier_hi = 0; modifier_lo = 5 }
    ∷ record { fd = pos 8; plane = 0; offset = 0; stride = 64; modifier_hi = 0; modifier_lo = 5 }
    ∷ []

-- The second request brings a plane that is set: its descriptor is closed.
second_refused :
    (add_all (some fresh_params) requests).1 ≡ post_error plane_set ∷ close (pos 8) ∷ []
unfolding add_all params_add add_plane
second_refused = refl

one_plane-IsValid : IsValid (one_plane 0)
one_plane-IsValid = ground arith

late_plane-IsValid : IsValid (one_plane 1)
late_plane-IsValid = ground arith

add_all-Balanced_example : Balanced fresh_params requests (add_all (some fresh_params) requests)
add_all-Balanced_example =
    add_all-Balanced fresh_params requests fresh_params-IsValid (refl, (refl, tt))

params_create_common-Settles_example :
    Settles
      (one_plane 0).attributes
      (params_create_common kernel (some (one_plane 0)) 3 (pos 16) (pos 65) 1 0)
params_create_common-Settles_example =
    params_create_common-Settles kernel (one_plane 0) 3 (pos 16) (pos 65) 1 0 (
      omega arith,
      λ i l. check_planes-prefix (one_plane 0) i one_plane-IsValid (unfold check_planes in refl) l,
    )

params_create_common-loses_example :
    let r = params_create_common kernel (some (one_plane 1)) 3 (pos 16) (pos 64) 1 0 in
    (r.buffer ≡ none)
    × (closed (pos 7) r.effects < held (pos 7) (one_plane 1).attributes.fd)
    × (closed (pos 7) (params_handle_resource_destroy (some (one_plane 1)))
        < held (pos 7) (one_plane 1).attributes.fd)
params_create_common-loses_example =
    params_create_common-loses kernel (one_plane 1) 3 (pos 16) (pos 64) 1 0 1 late_plane-IsValid
      refl (omega arith) (omega arith)

params_create_common-buffer_example :
    ((params_create_common kernel (some (one_plane 0)) 3 (pos 16) (pos 64) 1 0).buffer
      ≡ some (made_buffer (one_plane 0).attributes 3 (pos 16) (pos 64) 1))
    ↔ (Acceptable kernel (one_plane 0).attributes (pos 16) (pos 64) 0
        × IsImportable kernel (one_plane 0).attributes
        × (kernel.buffer_allocated ≡ true)
        × (kernel.resource_created ≡ true)
        × (made_buffer (one_plane 0).attributes 3 (pos 16) (pos 64) 1
            ≡ made_buffer (one_plane 0).attributes 3 (pos 16) (pos 64) 1))
params_create_common-buffer_example =
    params_create_common-buffer kernel (one_plane 0) 3 (pos 16) (pos 64) 1 0
      (made_buffer (one_plane 0).attributes 3 (pos 16) (pos 64) 1) one_plane-IsValid
      (λ i. (ground arith, ground arith)) (λ n e. ground arith)

-- Two planes, the second of which cannot be duplicated.
abbrev two_planes : DmabufAttributes
two_planes = record (one_plane 0).attributes {
  n_planes = 2;
  fd = write (write (λ i. minus_one) 0 (pos 7)) 1 (pos 8);
}

abbrev duplicates : Array ℤ
duplicates = write (write (λ i. minus_one) 0 (pos 17)) 1 minus_one
