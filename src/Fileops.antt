-- ===== src/Fileops.antt =====
-- internal/fileops/fileops.go: reading, writing, editing, finding and transferring files.
pub mod Lines
pub mod Read
pub mod Edit
pub mod Sort
pub mod Glob
pub mod Grep
pub mod Transfer
mod Tests
