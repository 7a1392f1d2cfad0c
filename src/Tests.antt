-- ===== src/Tests.antt =====
-- Runs of the model on small inputs, and its theorems at such inputs.
pub mod Data
mod Core
mod Config
mod Rpc
mod App
mod Input
mod Screens
mod Platform
mod Xcb
mod XcbInput
mod Keys
mod Wayland
mod Win32
mod Portal
