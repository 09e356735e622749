-- ===== src/Guest.antt =====
-- The Windows producer, packages/lalah-vm.
pub mod Args
pub mod Wasapi
pub mod Dshow
pub mod KeepAlive
pub mod Devices
pub mod Ivshmem
pub mod Run
pub mod Wide
mod Tests
