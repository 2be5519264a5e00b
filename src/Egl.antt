-- ===== src/Egl.antt =====
-- The formats and the images of the EGL renderer: westfield-egl.c.
pub mod Formats
pub mod Image
pub mod Attribs
pub mod Extensions
pub mod Render
pub mod Offered
pub mod Shaped
pub mod Kept
pub mod Valid
pub mod Names
pub mod Device
pub mod Found
pub mod Display
pub mod Setup
pub mod Settled
pub mod Balance
pub mod Renderer
pub mod Leaves
pub mod Suits
