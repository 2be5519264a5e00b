-- ===== src/Dmabuf/Create.antt =====
-- The requests create and create_immed of a zwp_linux_buffer_params_v1: params_create_common of
-- wlr_linux_dmabuf_v1.c, with check_import_dmabuf.
use Prim.Native.Nat.{bit_and}
use westfield.Prelude.{
  ℕ, zero, suc, ◌+◌, ◌-◌, ◌*◌, ◌%◌, ◌^◌, ℤ, is_minus_one, is_nonneg, lt_one, nat_gt, to_unsigned,
  Bool, true, false, ◌&&◌, ◌||◌, Option, none, some, List, [], ◌∷◌, ◌++◌, map, ltb, ◌==◌,
  if◌then◌else◌,
}
use westfield.Dmabuf.Attributes.{DmabufAttributes, dmabuf_attributes_finish}
use westfield.Dmabuf.Params.{
  ParamsError, already_used, incomplete, invalid_format, invalid_dimensions, out_of_bounds,
  invalid_wl_buffer, Effect, post_error, post_no_memory, close, import_handle, close_handle,
  send_created, send_failed, BufferParams,
}

-- What the kernel, libdrm and libwayland answer.
pub record Environment : Type 0 where
  -- lseek(fd, 0, SEEK_END)
  pub seek_end : ℤ → ℤ
  -- drmPrimeFDToHandle on the main device: the handle, unless it fails
  pub prime_fd_to_handle : ℤ → Option ℕ
  -- whether drmCloseBufferHandle on the main device succeeds
  pub close_buffer_handle : ℕ → Bool
  -- whether calloc and wl_resource_create return memory for the buffer
  pub buffer_allocated : Bool
  pub resource_created : Bool

-- Where a check leads: on, or to one of the labels.
pub data Check : Type 0 where
  pass : Check
  err_out : ParamsError → Check
  err_failed : Check

infixr 6 ◌and_then◌
abbrev pub ◌and_then◌ : Check → Check → Check
pass and_then next = next
err_out e and_then next = err_out e
err_failed and_then next = err_failed

abbrev pub u32_max : ℕ
u32_max = 2 ^ 32 - 1

unfoldable pub check_planes : DmabufAttributes → Check
check_planes a =
    if a.n_planes == 0
    then err_out incomplete
    else if is_minus_one (a.fd 0)
    then err_out incomplete
    else if (is_nonneg (a.fd 3) || is_nonneg (a.fd 2))
        && (is_minus_one (a.fd 2) || is_minus_one (a.fd 1))
    then err_out incomplete
    else pass

-- Y_INVERT | INTERLACED | BOTTOM_FIRST
abbrev pub all_flags : ℕ
all_flags = 7

unfoldable pub check_flags : ℕ → Check
check_flags flags =
    if bit_and flags (u32_max - all_flags) == 0
    then if flags == 0 then pass else err_failed
    else err_out invalid_format

unfoldable pub check_dimensions : ℤ → ℤ → Check
check_dimensions width height =
    if lt_one width || lt_one height then err_out invalid_dimensions else pass

-- The body of the loop over the planes. Sums of uint32_t wrap at 2^32 and those with a uint64_t
-- operand at 2^64; a comparison with `size` is one of signed 64-bit numbers.
unfoldable pub check_plane : ℤ → ℕ → ℕ → ℤ → ℕ → Check
check_plane size offset stride height i =
    if ltb u32_max ((offset + stride) % 2 ^ 64)
    then err_out out_of_bounds
    else if ltb u32_max ((offset + stride * to_unsigned 64 height) % 2 ^ 64)
    then err_out out_of_bounds
    else if is_minus_one size
    then pass
    else if nat_gt offset size
    then err_out out_of_bounds
    else if nat_gt ((offset + stride) % 2 ^ 32) size || stride == 0
    then err_out out_of_bounds
    else if i == 0 && nat_gt ((offset + stride * to_unsigned 32 height % 2 ^ 32) % 2 ^ 32) size
    then err_out out_of_bounds
    else pass

-- The loop from plane `i`, for `n` rounds.
unfoldable pub check_bounds : (ℤ → ℤ) → DmabufAttributes → ℤ → ℕ → ℕ → Check
check_bounds seek_end a height zero i = pass
check_bounds seek_end a height (suc n) i =
    check_plane (seek_end (a.fd i)) (a.offset i) (a.stride i) height i
    and_then check_bounds seek_end a height n (i + 1)

-- The loop of check_import_dmabuf from plane `i`, for `n` rounds.
unfoldable pub import_planes : Environment → DmabufAttributes → ℕ → ℕ → Bool × List Effect
import_planes env a zero i = (true, [])
import_planes env a (suc n) i =
    let (ok, effects) = import_planes env a n (i + 1) in
    elim (env.prime_fd_to_handle (a.fd i)) [
      | none ↦ (false, [])
      | some h ↦
          if env.close_buffer_handle h
          then (ok, import_handle h ∷ close_handle h ∷ effects)
          else (false, import_handle h ∷ close_handle h ∷ [])
    ]

unfoldable pub check_import_dmabuf : Environment → DmabufAttributes → Bool × List Effect
check_import_dmabuf env a = import_planes env a a.n_planes 0

-- struct wlr_dmabuf_v1_buffer: the fields of its base that the call sets, the id of its resource, and
-- the attributes.
pub record DmabufBuffer : Type 0 where
  pub width : ℤ
  pub height : ℤ
  pub resource : ℕ
  pub attributes : DmabufAttributes

-- The user data of the params resource after a request, the buffer that it made, and what it did.
pub record Outcome : Type 0 where
  pub params : Option BufferParams
  pub buffer : Option DmabufBuffer
  pub effects : List Effect

-- The label err_out.
unfoldable pub end_out : DmabufAttributes → List Effect → Outcome
unfolding dmabuf_attributes_finish
end_out a effects = record {
  params = none;
  buffer = none;
  effects = effects ++ map close (dmabuf_attributes_finish a).1;
}

-- The label err_failed, which runs on into err_out.
unfoldable pub end_failed : DmabufAttributes → ℕ → List Effect → Outcome
end_failed a buffer_id effects =
    end_out a
      (effects ++ (if buffer_id == 0 then send_failed else post_error invalid_wl_buffer) ∷ [])

-- All that is checked before the planes are imported.
unfoldable pub check_request : Environment → DmabufAttributes → ℤ → ℤ → ℕ → Check
check_request env a width height flags =
    check_planes a
    and_then check_flags flags
    and_then check_dimensions width height
    and_then check_bounds env.seek_end a height a.n_planes 0

-- What follows the checks: the import, the buffer and its resource.
unfoldable pub create_buffer : Environment → DmabufAttributes → ℕ → Outcome
create_buffer env a buffer_id =
    let (usable, effects) = check_import_dmabuf env a in
    let made : DmabufBuffer = record {
      width = a.width;
      height = a.height;
      resource = buffer_id;
      attributes = a;
    } in
    if usable
    then if env.buffer_allocated && env.resource_created
      then record {
        params = none;
        buffer = some made;
        effects = effects ++ (if buffer_id == 0 then send_created ∷ [] else []);
      }
      else end_failed a buffer_id (effects ++ post_no_memory ∷ [])
    else end_failed a buffer_id effects

-- Where the checks lead: a label, or the rest of params_create_common.
unfoldable pub after_checks : Environment → DmabufAttributes → ℕ → Check → Outcome
after_checks env a buffer_id pass = create_buffer env a buffer_id
after_checks env a buffer_id (err_out e) = end_out a (post_error e ∷ [])
after_checks env a buffer_id err_failed = end_failed a buffer_id []

-- params_create_common, once the user data is known not to be NULL: the resource becomes inert.
unfoldable pub create_from : Environment → DmabufAttributes → ℕ → ℤ → ℤ → ℕ → ℕ → Outcome
create_from env a buffer_id width height format flags =
    after_checks env (record a { width = width; height = height; format = format }) buffer_id
      (check_request env a width height flags)

unfoldable pub params_create_common :
    Environment → Option BufferParams → ℕ → ℤ → ℤ → ℕ → ℕ → Outcome
params_create_common env none buffer_id width height format flags = record {
  params = none;
  buffer = none;
  effects = post_error already_used ∷ [];
}
params_create_common env (some p) buffer_id width height format flags =
    create_from env p.attributes buffer_id width height format flags

unfoldable pub params_create : Environment → Option BufferParams → ℤ → ℤ → ℕ → ℕ → Outcome
params_create env p width height format flags =
    params_create_common env p 0 width height format flags

unfoldable pub params_create_immed : Environment → Option BufferParams → ℕ → ℤ → ℤ → ℕ → ℕ → Outcome
params_create_immed env p buffer_id width height format flags =
    params_create_common env p buffer_id width height format flags
