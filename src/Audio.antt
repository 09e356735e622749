-- ===== src/Audio.antt =====
-- The audio part of packages/shared/src/lib.rs: the header, the formats it carries, and the ring.
pub mod Header
pub mod Ring
pub mod Race
pub mod Publish
mod Tests
