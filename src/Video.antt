-- ===== src/Video.antt =====
-- The video part of packages/shared/src/lib.rs: the sub-region, its header, and the frame ring.
pub mod Header
pub mod Ring
pub mod Race
pub mod Publish
mod Tests
