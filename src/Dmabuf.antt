-- ===== src/Dmabuf.antt =====
-- The linux-dmabuf protocol: planes that a client hands over (westfield-dmabuf.c and .h) and the
-- requests on a zwp_linux_buffer_params_v1 (wlr_linux_dmabuf_v1.c).
pub mod Attributes
pub mod Copy
pub mod Params
pub mod Create
pub mod Planes
pub mod Ownership
pub mod Release
pub mod Bounds
pub mod Accept
pub mod Imports
