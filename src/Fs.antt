-- ===== src/Fs.antt =====
-- The file system's parts.
pub mod Ext2
pub mod Inode
pub mod Permission
pub mod Refs
pub mod Calls
pub mod Files
pub mod Lookup
