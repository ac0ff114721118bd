-- ===== src/Disk/Coherent.antt =====
-- src/disk/disk.c: the shared buffer against the images.
pub mod Storage
pub mod Invariant
pub mod Worker
pub mod Write
pub mod Track
pub mod WriteTrack
pub mod Mount
