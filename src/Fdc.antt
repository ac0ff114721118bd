-- ===== src/Fdc.antt =====
-- src/fdc/fdc.c: the FDC+ protocol engine.
pub mod State
pub mod Wire
pub mod Handlers
pub mod Attach
pub mod Framing
pub mod Task
