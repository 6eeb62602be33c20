-- ===== src/Tcp.antt =====
-- src/transport/tcp_stream_transport.cpp: the TCP client.
pub mod Socket
pub mod Stream
pub mod Custody
pub mod Session
pub mod Ownership
pub mod Writing
pub mod Reading
pub mod Interface
pub mod Opening
pub mod Addresses
pub mod Completion
pub mod Promises
