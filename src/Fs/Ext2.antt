-- ===== src/Fs/Ext2.antt =====
-- kernel/src/fs/ext2: the file system on disk.
pub mod Balloc
pub mod Entry
pub mod Ialloc
pub mod Namei
