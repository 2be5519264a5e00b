-- ===== src/Drm.antt =====
-- The DRM formats with their modifiers (drm_format_set.c and .h).
pub mod Checked
pub mod Format
pub mod FormatSet
pub mod Membership
pub mod Add
pub mod Shape
pub mod Intersection
