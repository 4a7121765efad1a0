-- ===== src/Lib.antt =====
-- A model of parts of the kernel ferrite-c.
--
-- The parts, and how they meet:
--   Common          what the others share: tests into Bool, lists and arrays by native numbers, 32-bit
--                   arithmetic, `Run` for code that can fault or abort, signed results.
--   Memory/Buddy    kernel/src/memory/buddy_allocator/buddy.c: the pool of physical pages, its free
--                   lists (an intrusive list in the free pages, `next`) and its bit maps.
--   Memory/Copy     kernel/src/arch/x86/lib/string/memmove.c and memset.c, with the string instructions of
--                   the assembly as functions on the memory.
--   Memory/Vmalloc  kernel/src/memory/vmalloc.c and vfree.c: the free list of the virtual heap. Space has
--                   the abstract view, how often an address is free; Canonical shows that it determines
--                   the list.
--   Fs/Ext2/Entry   kernel/src/fs/ext2/entry.c: the entries of a directory in the bytes of its blocks.
--   Fs/Ext2/Balloc  kernel/src/fs/ext2/balloc.c: the bit maps and the counts of the groups of blocks.
--   Fs/Ext2/Ialloc  kernel/src/fs/ext2/ialloc.c: the bit maps and the counts of the groups of inodes.
--   Fs/Inode        kernel/src/fs/vfs/inode.c: `inode_get_empty`, `inode_get` and `inode_put` over the
--                   slots of `inode_cache`. Counts has the references that a cache counts for an inode,
--                   the abstract view that forgets the slots; Get, Put and Balance are the calls over it,
--                   and View relates them to Fs/Refs.
--   Fs/Permission   kernel/src/fs/namei.c: `in_group_p` and `vfs_permission`, and `ext2_permission` of
--                   kernel/src/fs/ext2/acl.c, which read the identity that Sys/Cred changes.
--   Fs/Refs         what `inode_get` and `inode_put` do with the counts, as the callers of the cache see it.
--   Fs/Lookup       kernel/src/fs/namei.c: `vfs_lookup`, `dir_namei` and `vfs_mknod` over these counts.
--   Fs/Calls        kernel/src/fs/fs_interface.c: the system calls on paths. Keep has what the operations
--                   of a file system are relied on to do with the counts, Effect and Pwd what each call does with
--                   them, Invariant a sequence of calls, Path the normalization of a path.
--   Fs/Files        kernel/src/fs/fs_interface.c: `sys_open` and `sys_close`, and `file_put` of
--                   kernel/src/sys/file/file.c, over the open files, the files and the counts.
--   Fs/Ext2/Namei   kernel/src/fs/ext2/namei.c, and `ext2_mknod` and `ext2_mkdir` of
--                   kernel/src/fs/ext2/dir.c, over the counts, the fields of the inodes and the entries.
--   Strings         kernel/src/arch/x86/lib/string/split.c and substr.c.
--   Sys/Cred        kernel/src/sys.c: the system calls on the user and group identifiers and the
--                   supplementary groups of the caller.
--   Sys/Timer       kernel/src/sys/timer/timer.c and `wakeup` of kernel/src/sys/process/process.c: the
--                   timer slots, and sleeping for a time or on a channel. A call ends at its switch to
--                   the scheduler.
--   Sys/File        kernel/src/sys/file/file.c: `fd_alloc` and `fd_get` over the open files of a process.
--   Sys/Process     kernel/src/sys/process/process.c: the table of the processes; the slot of a new process,
--                   exit, and the wait of a parent. Calls into the memory and the file system are recorded.
--   Sys/Signal      kernel/src/sys/signal/signal.c: sending a signal to a process of the table, and taking
--                   the pending signals.
--   Net/Unix        kernel/src/net/unix.c and the file operations of kernel/src/net/socket.c: bind,
--                   listen, connect, accept, read, write, shutdown and release of local sockets.
-- A function has the name of the C function that it translates, and takes the state that the C
-- function reads and writes (the allocator, the cache, the identity of `myproc()`, the sockets) as an
-- argument that it returns changed.
--
-- Bounds: every loop here is structural over a list or bounded by the source's own counter, except the
-- search of a free list in the buddy allocator, the walks over a directory block and the jump to `retry`
-- of the block allocation, which run on fuel; the theorems on them show that it is enough, for the first
-- two in a well-formed state. Kernel addresses and sizes wrap at 2 ^ 32, `i_count` at 2 ^ 16.
--
-- Not modelled: the drivers, the interrupt and descriptor tables, the consoles, page tables and
-- virtual memory, the rest of ext2, the scheduler and fork, the loaders, and user space. Printing is
-- left out of the functions that are modelled. What a modelled function takes from code outside of its
-- file (a directory's `lookup` and `create`, `read_inode`, `kmalloc`) is an argument. `getcwd`, the reads
-- of a file's attributes and the memory that a lookup frees are left out.
pub mod Common
pub mod Fs
pub mod Memory
pub mod Net
pub mod Strings
pub mod Sys
