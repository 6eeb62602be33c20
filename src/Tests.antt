-- ===== src/Tests.antt =====
-- The theorems at concrete inputs, and runs of the model.
mod System
mod Tcp
mod Udp
mod Serial
mod Process
mod Tls
mod Fake
mod EventLoop
mod ModeE
mod CApi
mod Discovery
