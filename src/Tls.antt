-- ===== src/Tls.antt =====
-- src/transport/tls_stream_transport.cpp: the TLS stream over another byte stream.
pub mod Stream
pub mod Session
pub mod Closing
pub mod Unsupported
