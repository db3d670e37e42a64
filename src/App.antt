-- ===== src/App.antt =====
-- src/app.rs and src/main.rs: the configuration, and how a node starts from it.
pub mod Cors
pub mod Config
pub mod Start
pub mod Needs
pub mod Persistence
mod Tests
