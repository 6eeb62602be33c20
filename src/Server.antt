-- ===== src/Server.antt =====
-- src/transport/tcp_server_transport.cpp: the TCP listener and the streams that it accepts.
pub mod Accepted
pub mod Listener
pub mod Agreement
pub mod Custody
pub mod Session
pub mod Ownership
pub mod Outcomes
