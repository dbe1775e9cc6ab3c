-- ===== src/Input.antt =====
-- platform/windows: the input signatures and the hooks.
pub mod Signature
pub mod Matcher
pub mod Sequence
pub mod Listener
pub mod Hooks
pub mod Hotkeys
pub mod Registration
pub mod Output
