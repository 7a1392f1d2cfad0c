-- ===== src/Platform.antt =====
-- src/platform: the choice of a backend, the tables of key codes, and the backends.
pub mod Backend
pub mod KeyTable
pub mod Wayland
pub mod Xcb
pub mod Win32
pub mod Portal
