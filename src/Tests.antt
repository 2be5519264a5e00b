-- ===== src/Tests.antt =====
-- Runs of the model, and the theorems at concrete inputs.
mod Drm
mod Dmabuf
mod Feedback
mod Default
mod Xwayland
mod Egl
mod Buffer
mod WlDrm
mod Shm
mod Setup
mod Node
mod Files
mod Surfaces
mod Globals
