-- ===== src/Fs.antt =====
-- The file system (kernel/fs): its errors, where it lies on the device, and the structures on it.
pub mod Errors
pub mod Device
pub mod Bytes
pub mod Gpt
pub mod Region
pub mod Layout
pub mod Driver
pub mod Store
pub mod Cache
pub mod Bitmap
pub mod Blocks
pub mod Mount
pub mod Inode
pub mod Oft
pub mod InodeCache
