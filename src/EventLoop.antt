-- ===== src/EventLoop.antt =====
-- include/dlms/transport/transport_event_loop.hpp: the manual event loop.
pub mod Table
pub mod Manual
pub mod Tables
pub mod Validity
pub mod Dispatch
