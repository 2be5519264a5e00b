-- ===== src/Buffer/Drop.antt =====
-- The end of a dma-buf buffer: westfield_buffer_init, westfield_buffer_drop and
-- buffer_consider_destroy of westfield-buffer.c; buffer_destroy, buffer_handle_release and
-- buffer_handle_resource_destroy of wlr_linux_dmabuf_v1.c.
use westfield.Dmabuf.Attributes.{DmabufAttributes, dmabuf_attributes_finish}
use westfield.Drm.Intersection.{Checked, returned, aborted}
use westfield.Prelude.{ℤ, pos, Bool, true, false, List, [], ◌∷◌, ◌++◌, map, if◌then◌else◌}

-- What happens at the end of a buffer, in order.
pub data Ending : Type 0 where
  emit_destroy finish_addons clear_user_data remove_release free_buffer send_release : Ending
  close_fd : ℤ → Ending

-- struct westfield_buffer and struct wlr_dmabuf_v1_buffer; `resource` says whether the pointer is set.
pub record Buffer : Type 0 where
  pub width : ℤ
  pub height : ℤ
  pub dropped : Bool
  pub resource : Bool
  pub attributes : DmabufAttributes

-- calloc
abbrev pub zeroed_buffer : Buffer
zeroed_buffer = record {
  width = pos 0;
  height = pos 0;
  dropped = false;
  resource = false;
  attributes = record {
    width = pos 0;
    height = pos 0;
    format = 0;
    modifier = 0;
    n_planes = 0;
    offset = λ i. 0;
    stride = λ i. 0;
    fd = λ i. pos 0;
  };
}

-- The base of the buffer, with the interface of dma-bufs.
abbrev pub westfield_buffer_init : Buffer → ℤ → ℤ → Buffer
westfield_buffer_init b width height = record b { width = width; height = height; dropped = false }

-- The buffer that params_create_common makes: allocated, initialised, and given its resource and its
-- attributes.
abbrev pub dmabuf_buffer : DmabufAttributes → Buffer
dmabuf_buffer a = record (westfield_buffer_init zeroed_buffer a.width a.height) {
  resource = true;
  attributes = a;
}

unfoldable pub buffer_destroy : Buffer → List Ending
buffer_destroy b =
    (if b.resource then clear_user_data ∷ [] else [])
    ++ map close_fd (dmabuf_attributes_finish b.attributes).1
    ++ remove_release ∷ free_buffer ∷ []

unfoldable pub buffer_consider_destroy : Buffer → List Ending
buffer_consider_destroy b =
    if b.dropped then emit_destroy ∷ finish_addons ∷ buffer_destroy b else []

unfoldable pub westfield_buffer_drop : Buffer → Checked (List Ending)
westfield_buffer_drop b =
    if b.dropped then aborted else returned (buffer_consider_destroy (record b { dropped = true }))

unfoldable pub buffer_handle_resource_destroy : Buffer → Checked (List Ending)
buffer_handle_resource_destroy b = westfield_buffer_drop (record b { resource = false })

unfoldable pub buffer_handle_release : Buffer → List Ending
buffer_handle_release b = if b.resource then send_release ∷ [] else []
