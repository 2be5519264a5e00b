-- ===== src/WlDrm.antt =====
-- The global wl_drm, for clients that do not know zwp_linux_dmabuf_v1 (wlr_drm.c).
pub mod Buffers
pub mod Global
pub mod Primed
pub mod Created
pub mod Announced
