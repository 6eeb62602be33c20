-- ===== src/Timer.antt =====
-- include/dlms/transport/timer_scheduler.hpp: the durations of the timeouts, and the timer.
use dlms_transport.Prelude.{ℕ}
pub mod Scheduler

-- `milliseconds` is a `std::uint32_t`.
pub record TransportDuration : Type 0 where
  pub milliseconds : ℕ
