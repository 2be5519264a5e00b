-- ===== src/Buffer.antt =====
-- Addons (addon.c), and the end of a buffer made of dma-bufs (westfield-buffer.c and
-- wlr_linux_dmabuf_v1.c).
pub mod Addon
pub mod Lookup
pub mod Drop
pub mod Ended
