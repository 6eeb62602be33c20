-- ===== src/CApi.antt =====
-- src/transport/transport_c_api.cpp: the C functions over the transports.
pub mod Codes
pub mod Handles
pub mod Tcp
pub mod Udp
pub mod Serial
pub mod Timer
pub mod Programs
pub mod Refinement
pub mod Lifetimes
pub mod Conversions
pub mod Ownership
pub mod Creation
