-- ===== src/Platform/Xcb.antt =====
-- src/platform/xcb.cpp: the X11 backend. The X server's answers are parameters.
pub mod Connection
pub mod Screens
pub mod Capture
pub mod Keysyms
pub mod Events
pub mod Monitors
pub mod Injector
