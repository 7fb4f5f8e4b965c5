-- ===== src/Buffer.antt =====
pub mod Arc
pub mod Disk
pub mod Pool
pub mod Guard
