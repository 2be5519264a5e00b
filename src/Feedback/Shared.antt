-- ===== src/Feedback/Shared.antt =====
-- One surface of the manager for each surface of a client (wlr_linux_dmabuf_v1.c).
use westfield.Buffer.Addon.{Addon}
