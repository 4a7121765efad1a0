-- ===== src/Fs/Permission/Ext2.antt =====
-- kernel/src/fs/ext2/acl.c: the check of the ext2 inodes against the one of the virtual file system.
use ferrite_c.Common.{ℕ, ◌≡◌, none, some, arith}
use ferrite_c.Sys.Cred.{Cred}
use ferrite_c.Fs.Permission.{Protected, class_mode, vfs_permission, ext2_permission}

-- With `ext2_permission` for the operation of the inode, `vfs_permission` answers what it answers for an
-- inode without an operation, whatever the caller, the inode and the mask.
pub vfs_permission-ext2_permission :
    (c : Cred) (node : Protected) (mask : ℕ)
    → vfs_permission c (record node { permission = some (ext2_permission c node) }) mask
      ≡ vfs_permission c (record node { permission = none }) mask
unfolding vfs_permission ext2_permission class_mode
vfs_permission-ext2_permission c node mask = ground arith
