-- ===== src/Xwayland.antt =====
-- The launcher of Xwayland: westfield-xwayland.c.
pub mod Os
pub mod Lockfile
pub mod Display
pub mod Number
pub mod Locking
pub mod Searching
pub mod Server
pub mod Events
pub mod Counts
pub mod Lifecycle
pub mod Listening
pub mod Failures
