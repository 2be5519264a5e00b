-- ===== src/Feedback.antt =====
-- The format table that linux-dmabuf clients are given, and the formats that are announced to older
-- ones (wlr_linux_dmabuf_v1.c).
pub mod Table
pub mod Compile
pub mod Index
pub mod Decode
pub mod Compiled
pub mod Announce
pub mod Announced
pub mod Client
pub mod Default
pub mod Merged
pub mod Managed
pub mod Created
pub mod Working
pub mod Shm
pub mod ShmNames
pub mod Surfaces
pub mod Pairs
pub mod Requests
pub mod Shared
