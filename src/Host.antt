-- ===== src/Host.antt =====
-- The Linux consumer, packages/lalah-host.
pub mod Startup
pub mod Playback
pub mod Forward
pub mod Args
pub mod Run
mod Tests
