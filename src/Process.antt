-- ===== src/Process.antt =====
-- A process with any number of transports: their calls, interleaved.
pub mod Objects
pub mod Session
pub mod Ownership
