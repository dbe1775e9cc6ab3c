-- ===== src/Tests.antt =====
-- Concrete inputs on which the theorems are applied.
mod Desk
mod Control
mod Events
mod Listening
mod Lines
mod Texts
mod Typing
mod Clipping
mod Interface
mod Files
mod Hosting
mod Window
