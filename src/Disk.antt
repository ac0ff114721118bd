-- ===== src/Disk.antt =====
-- src/disk/disk.c: the mount table, the shared track buffer with its one-entry cache, and the
-- disk-I/O worker.
pub mod Io
pub mod Backing
pub mod Table
pub mod Worker
pub mod Jobs
pub mod Mount
pub mod Track
pub mod Remote
pub mod Change
pub mod Laws
pub mod Coherent
