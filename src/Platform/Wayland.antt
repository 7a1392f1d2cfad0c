-- ===== src/Platform/Wayland.antt =====
-- src/platform/wayland_keymap.hpp.
pub mod Keymap
pub mod Outputs
pub mod Position
pub mod Injector
pub mod Requests
