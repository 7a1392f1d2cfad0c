-- ===== src/Platform/Win32.antt =====
-- src/platform/win32.cpp and win32_key.hpp: the Windows backend.
pub mod Keys
pub mod Desktop
pub mod Monitors
pub mod Startup
pub mod Capture
pub mod Hooks
pub mod Injector
