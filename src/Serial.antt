-- ===== src/Serial.antt =====
-- src/transport/serial_transport.cpp: the serial transport, in its POSIX branch.
pub mod Port
pub mod Session
pub mod Ownership
pub mod Reading
pub mod Interface
pub mod Writing
pub mod Discovery
pub mod Order
pub mod Sorting
pub mod Listing
pub mod Promises
