-- ===== src/Fs.antt =====
-- The file systems, kernel/src/fs.
pub mod File
pub mod Tree
pub mod Vfs
mod Tests
