-- ===== src/Fs.antt =====
-- p5/xv6-public/fs.c and fs.h: the file system, below the table of open files.
-- The children follow the layers of fs.c, from the top: path names, the cache of inodes, the contents
-- of an inode, and the map of free blocks.
pub mod Path
pub mod Bitmap
pub mod Blocks
pub mod Inode
pub mod Icache
pub mod Truncate
pub mod Dir
pub mod Names
mod Samples
mod Tests
