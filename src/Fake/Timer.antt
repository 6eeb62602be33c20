-- ===== src/Fake/Timer.antt =====
-- `FakeTimerScheduler` of fake_transport.hpp. Its counter is a `std::uint64_t`, and wraps.
use dlms_transport.Prelude.{ℕ, ◌+◌, ◌%◌, ◌^◌, ◌<◌, ◌≡◌, ap, ◌∙◌, List, [], ◌∷◌, arith}
use dlms_transport.Status.{Status, ok}
use dlms_transport.Timer.{TransportDuration}

pub record FakeTimerScheduler : Type 0 where
  pub now : ℕ

abbrev pub new_timer : FakeTimerScheduler
new_timer = record { now = 0 }

-- The status, and the value written.
unfoldable pub monotonic_milliseconds : FakeTimerScheduler → Status × ℕ
monotonic_milliseconds s = (ok, s.now)

unfoldable pub sleep_for : TransportDuration → FakeTimerScheduler → Status × FakeTimerScheduler
sleep_for d s = (ok, record s { now = (s.now + d.milliseconds) % 2 ^ 64 })

unfoldable pub set_now : ℕ → FakeTimerScheduler → FakeTimerScheduler
set_now value s = record s { now = value }

pub sleeps : List TransportDuration → FakeTimerScheduler → FakeTimerScheduler
sleeps [] s = s
sleeps (d ∷ ds) s = sleeps ds (sleep_for d s).1

abbrev total : List TransportDuration → ℕ
total [] = 0
total (d ∷ ds) = d.milliseconds + total ds

-- From a counter in range, any sleeps move the fake clock by their sum, modulo 2^64.
pub sleeps_advance :
    (ds : List TransportDuration) (s : FakeTimerScheduler)
    → s.now < 2 ^ 64
    → monotonic_milliseconds (sleeps ds s) ≡ (ok, (s.now + total ds) % 2 ^ 64)
unfolding monotonic_milliseconds sleeps sleep_for
sleeps_advance [] s h = ground arith
sleeps_advance (d ∷ ds) s h =
    sleeps_advance ds (sleep_for d s).1 (omega arith) ∙ ap (λ n. (ok, n)) (omega arith)
