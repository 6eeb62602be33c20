-- ===== src/Fake.antt =====
-- include/dlms/transport/fake_transport.hpp: the scripted channels and the clock for tests.
pub mod Stream
pub mod Datagram
pub mod Timer
pub mod Laws
pub mod Delivery
pub mod Interface
