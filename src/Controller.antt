-- ===== src/Controller.antt =====
-- internal/app/controller.go: the clipboard history, the paste queue and the macros.
pub mod State
pub mod Calls
pub mod Keeps
pub mod Invariant
pub mod Inversion
pub mod Delivery
pub mod Repeat
pub mod Update
pub mod Ring
pub mod Suppress
pub mod Queue
pub mod Watch
pub mod Paste
pub mod Macros
