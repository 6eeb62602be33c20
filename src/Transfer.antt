-- ===== src/Transfer.antt =====
-- The loop that `WriteAll` is, in the TCP client, in an accepted stream and in the serial transport.
pub mod Loop
pub mod Delivery
pub mod Completion
pub mod Ending
