-- ===== src/Lib.antt =====
-- fdc-sds-pio: the firmware of an ESP32 that serves the disk images of an SD card, and of TNFS
-- servers, to the FDC+ floppy controller over a serial line or TCP.
--
-- The parts, and the files that model them:
--   Protocol (include/protocol.h): ten-byte blocks, checksums, track geometry, the status bitmap.
--     Proofs in Protocol/Checksum, Corruption, Geometry, Bitmap.
--   Wildcard (include/wildcard.h): wildcard_match_ci. The loop of the source is recursion on fuel,
--     (|name| + 2) * (|pattern| + 1) of it, which Wildcard/Correct shows to be enough for a name
--     without a star.
--   Sd (src/disk/sd.c): sd_path.
--   Tnfs (src/net/tnfs.c): Url the parser, Framing one response on either transport, Client a
--     session and its commands, Open, Blocks and Listing the rest of its operations, over the
--     interface Net to lwIP. tcp_read_exact, tnfs_read_at and tnfs_write_at are on as much fuel as
--     they have bytes to go, since every turn moves one at least; the wait for a datagram on as
--     many turns as can come (Framing/Ends); a listing for as many rounds as its caller says, since
--     the server decides how many there are. Tnfs/Blocks/Serving and Storing are what a read and a
--     write rely on of a server: that it answers LSEEK, READ and WRITE from one file as the
--     protocol says. Tnfs/Proto, Cmd and Status (include/tnfs_proto.h): the wire constants and the
--     little-endian words.
--   TnfsServer (src/net/tnfs_server.c): State is the sessions; Os the interface to POSIX, the clock
--     and the socket; Sessions, Paths, Files, Names, Dirs and Streams the helpers and the handlers,
--     each under the name of its C function; Process the dispatch and the replay, Serve MOUNT and
--     the turns of the loop; Board puts it over the guard of Disk. The loops over readdir are on as
--     many turns as the stream has entries left, which Dirs/Listing proves to be enough, and
--     next_sid on four, which Sessions/Ids does. A body is the bytes of the reply from its status
--     on.
--   Disk (src/disk/disk.c): Table is the state (s_drv, s_track_buf, s_cache, the worker's queue);
--     Backing the local and the remote image; Worker the diskio task and the hand-off to it, Jobs
--     the life of one job; Mount, Track, Remote and Change the operations, each under the name of
--     its C function. Disk/Io is the interface to FatFs, FreeRTOS, TNFS sessions and the network,
--     over a state of the world; Disk/Laws is what the proofs rely on of it. Between two locked
--     parts of an operation the other tasks do anything, a function of the state (Others), and the
--     end of a job's wait is a case of Handoff. Proofs on the cache are in Disk/Coherent, on the
--     table in Disk/Mount/*, on the guard in Disk/Change/Guard, on the jobs in Disk/Jobs.
--   Fdc (src/fdc/fdc.c, include/fdc.h): State is the static variables and counters; Wire the
--     interface to the two transports, and Framing their loops, on fuel that Framing/Total proves
--     to be enough; Handlers are STAT, READ and WRIT (disk_read_track and disk_write_track of Disk
--     do the work); Attach is the TCP attachment; Task is the loopback test and one turn of
--     fdc_task. Proofs in Fdc/Handlers/*, Fdc/Attach/*, Fdc/Task/SelfTest.
--   Config (src/config/config.c, include/config.h): the record, defaults, config_init, config_save
--     and config_wipe over an interface to the NVS library; Config/Change has the setters and the
--     prompt. Proofs in Config/Stored, Reload, Wipe, Setters, Settings.
--   Prelude has the helpers that all share: tests on native numbers, integers, lists and byte
--     strings.
--   Tests has a concrete world and runs of the theorems in it.
--
-- Conventions: a C string is the list of its bytes before the NUL, a buffer its bytes; counters and
-- offsets keep their wrap-around at 2^32, words at 2^16, bytes at 2^8. A locked section of the
-- source is one function of the model. Log output is left out, and so are the tests for a NULL
-- argument and for a lock that the set-up has not created yet.
--
-- Not modelled: the FreeRTOS objects and the set-up of tasks and the UART (disk_init, fdc_init),
-- mounting the card, the command line, OTA updates and the network services, and the copy of an FTP
-- server in lib/.
mod Prelude
pub mod Esp
pub mod Protocol
pub mod Wildcard
pub mod Sd
pub mod Tnfs
pub mod Disk
pub mod TnfsServer
pub mod Fdc
pub mod Config
mod Tests
