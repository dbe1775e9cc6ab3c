-- ===== src/Config.antt =====
-- internal/config/config.go: the configuration record.
pub mod Types
pub mod Hotkeys
pub mod Store
pub mod Loading
