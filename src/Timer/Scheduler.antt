-- ===== src/Timer/Scheduler.antt =====
-- `TimerScheduler` of timer_scheduler.cpp, over the steady clock and the sleep of the platform.
use dlms_transport.Prelude.{ℕ, ◌+◌, ◌*◌, ◌/◌, ◌%◌, ◌^◌, ◌≤◌, ◌<◌}
use dlms_transport.Status.{Status, ok}
use dlms_transport.Timer.{TransportDuration}

-- `steady_clock::now().time_since_epoch()` in ticks, of which `ticks` make a millisecond, and
-- `this_thread::sleep_for`, on the state of the world. The epoch is not in the future.
pub record Clock : Type 1 where
  pub World : Type 0
  pub ticks : ℕ
  pub now : World → ℕ
  pub sleep_for : ℕ → World → World

-- The documented behaviour: a clock has at least one tick in a millisecond, and `sleep_for` blocks at
-- least for its duration, which the steady clock, that is never set back, shows in ticks.
pub record IsSteady (clock : Clock) : Type 0 where
  pub some_ticks : 0 < clock.ticks
  pub sleeps :
      (milliseconds : ℕ) (w : clock.World)
      → clock.now w + milliseconds * clock.ticks ≤ clock.now (clock.sleep_for milliseconds w)

module _ (clock : Clock) where
  -- `duration_cast<milliseconds>` rounds down, and the cast to `std::uint64_t` wraps.
  unfoldable pub monotonic_milliseconds : clock.World → Status × ℕ
  monotonic_milliseconds w = (ok, clock.now w / clock.ticks % 2 ^ 64)

  unfoldable pub sleep_for : TransportDuration → clock.World → Status × clock.World
  sleep_for duration w = (ok, clock.sleep_for duration.milliseconds w)
