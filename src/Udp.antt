-- ===== src/Udp.antt =====
-- src/transport/udp_transport.cpp: the UDP transport.
pub mod Socket
pub mod Transport
pub mod Custody
pub mod Session
pub mod Ownership
pub mod Addresses
pub mod Waiting
pub mod Datagrams
pub mod Sending
pub mod Interface
