-- ===== src/Node.antt =====
-- The addon of Node.js: the references to JavaScript functions that it holds for a display and its
-- clients, and the calls that it makes (node-addon/westfield-addon.c).
pub mod Clients
pub mod References
pub mod Accounts
pub mod Life
pub mod Xwayland
pub mod Callbacks
pub mod Uses
pub mod Drm
pub mod Offers
