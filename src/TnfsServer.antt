-- ===== src/TnfsServer.antt =====
-- src/net/tnfs_server.c: the TNFS server over the SD card.
pub mod Os
pub mod State
pub mod Paths
pub mod Sessions
pub mod Files
pub mod Names
pub mod Dirs
pub mod Streams
pub mod Process
pub mod Serve
pub mod Board
