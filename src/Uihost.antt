-- ===== src/Uihost.antt =====
-- internal/uihost: the windows of the UI.
pub mod Fallback
pub mod Webview
