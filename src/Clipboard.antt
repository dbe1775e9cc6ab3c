-- ===== src/Clipboard.antt =====
-- platform/windows/clipboard.go: what the clipboard holds.
pub mod Content
pub mod Dib
pub mod Access
