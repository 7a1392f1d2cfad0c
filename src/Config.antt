-- ===== src/Config.antt =====
-- src/config: the persisted configuration.
pub mod AppConfig
pub mod Files
