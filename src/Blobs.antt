-- ===== src/Blobs.antt =====
-- deployables/backend/internal/blobs/blobs.go: files under one root. Paths, the disk, and the
-- operations; which system calls fail is an argument.
pub mod Paths
pub mod Segments
pub mod Inside
pub mod Disk
pub mod Names
pub mod Removal
pub mod Written
pub mod Sweep
