-- ===== src/Dmabuf/Params.antt =====
-- The state of a zwp_linux_buffer_params_v1 and its requests destroy and add: params_destroy,
-- params_add, params_handle_resource_destroy and linux_dmabuf_create_params of
-- wlr_linux_dmabuf_v1.c. The user data of the resource is NULL (`none`) once it is inert.
use westfield.Prelude.{
  ℕ, ◌+◌, ◌*◌, ◌^◌, ℤ, pos, minus_one, is_minus_one, Bool, true, false, not, ◌&&◌, Option, none,
  some, List, [], ◌∷◌, map, leb, ◌==◌, if◌then◌else◌,
}
use westfield.Dmabuf.Attributes.{DmabufAttributes, write, max_planes, dmabuf_attributes_finish}

-- enum zwp_linux_buffer_params_v1_error
pub data ParamsError : Type 0 where
  already_used plane_idx plane_set incomplete : ParamsError
  invalid_format invalid_dimensions out_of_bounds invalid_wl_buffer : ParamsError

-- What a handler does outside its own state, in order.
pub data Effect : Type 0 where
  post_error : ParamsError → Effect
  post_no_memory : Effect
  close : ℤ → Effect
  import_handle close_handle : ℕ → Effect
  send_created send_failed : Effect

-- struct wlr_linux_buffer_params_v1
pub record BufferParams : Type 0 where
  pub attributes : DmabufAttributes
  pub has_modifier : Bool

-- calloc, and -1 in each entry of `fd`
abbrev pub fresh_params : BufferParams
fresh_params = record {
  attributes = record {
    width = pos 0;
    height = pos 0;
    format = 0;
    modifier = 0;
    n_planes = 0;
    offset = λ i. 0;
    stride = λ i. 0;
    fd = λ i. minus_one;
  };
  has_modifier = false;
}

-- `allocated` and `created` say whether calloc and wl_resource_create return memory.
unfoldable pub linux_dmabuf_create_params : Bool → Bool → Option BufferParams × List Effect
linux_dmabuf_create_params allocated created =
    if allocated && created then (some fresh_params, []) else (none, post_no_memory ∷ [])

-- `((uint64_t)modifier_hi << 32) | modifier_lo`, for two numbers of 32 bits
abbrev pub join_modifier : ℕ → ℕ → ℕ
join_modifier hi lo = hi * 2 ^ 32 + lo

-- params_add, once the user data is known not to be NULL.
unfoldable pub add_plane : BufferParams → ℤ → ℕ → ℕ → ℕ → ℕ → BufferParams × List Effect
add_plane p fd plane offset stride modifier =
    let a = p.attributes in
    if leb max_planes plane
    then (p, post_error plane_idx ∷ close fd ∷ [])
    else if not (is_minus_one (a.fd plane))
    then (p, post_error plane_set ∷ close fd ∷ [])
    else if p.has_modifier && not (modifier == a.modifier)
    then (p, post_error invalid_format ∷ close fd ∷ [])
    else (
      record {
        attributes = record a {
          modifier = modifier;
          fd = write a.fd plane fd;
          offset = write a.offset plane offset;
          stride = write a.stride plane stride;
          n_planes = a.n_planes + 1;
        };
        has_modifier = true;
      },
      [],
    )

unfoldable pub params_add :
    Option BufferParams → ℤ → ℕ → ℕ → ℕ → ℕ → ℕ → Option BufferParams × List Effect
unfolding add_plane
params_add none fd plane offset stride hi lo = (none, post_error already_used ∷ close fd ∷ [])
params_add (some p) fd plane offset stride hi lo =
    let (p', effects) = add_plane p fd plane offset stride (join_modifier hi lo) in
    (some p', effects)

-- The resource is destroyed, by request or with its client.
unfoldable pub params_handle_resource_destroy : Option BufferParams → List Effect
unfolding dmabuf_attributes_finish
params_handle_resource_destroy none = []
params_handle_resource_destroy (some p) = map close (dmabuf_attributes_finish p.attributes).1
