-- ===== src/Tests.antt =====
-- A concrete world, and runs of the theorems in it.
mod World
mod Card
mod Client
mod Remote
mod Reading
mod Server
mod Busy
mod Closed
mod Protocol
mod Disk
mod Jobs
mod Sd
mod Fdc
mod Framing
mod Config
