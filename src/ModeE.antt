-- ===== src/ModeE.antt =====
-- include/dlms/transport/iec62056_21_mode_e.hpp and src/transport/iec62056_21_mode_e.cpp.
pub mod Protocol
pub mod Handshake
pub mod Grammar
