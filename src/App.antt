-- ===== src/App.antt =====
-- src/app: the server's screens, input routing and sessions, and the client.
pub mod Screens
pub mod Input
pub mod Session
pub mod Server
pub mod Client
