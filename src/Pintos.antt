-- ===== src/Pintos.antt =====
-- Pintos (group1/pintos/src): the bitmap of the kernel library and the file system over it.
pub mod Word
pub mod Bitmap
pub mod Block
pub mod Content
pub mod FreeMap
pub mod Inodes
pub mod File
pub mod Donation
pub mod Alarm
pub mod Intq
mod Tests
