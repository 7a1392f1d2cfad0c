-- ===== src/Platform/Portal.antt =====
-- src/platform/wayland_portal.cpp: the backend of the desktop portal and libei.
pub mod Errors
pub mod Screens
pub mod Points
pub mod Injector
pub mod Capture
pub mod Probe
