-- ===== src/CApi/Timer.antt =====
-- The `dlms_transport_timer_*` functions. The timer has no members: of a handle it matters only
-- whether it is null.
use dlms_transport.Prelude.{
  ℕ, ◌+◌, ◌%◌, ◌^◌, ◌≤◌, ◌<◌, ◌≡◌, refl, Bool, true, false, ◌||◌, if◌then◌else◌, Option, none, some,
  ◌*◌, ◌/◌, ◌&&◌, ◌==◌, List, [], ◌∷◌, arith,
}
use native.Mathlib.Nat.{div-mul-le_self, le-div_iff_mul-le, add-mul-div_right}
use dlms_transport.Timer.Scheduler.{Clock, IsSteady, monotonic_milliseconds, sleep_for}
use dlms_transport.CApi.Codes.{
  code_ok, code_invalid_argument, code_internal_error, to_c_status, duration,
}

-- The code, and whether `*timer` is null after it. `memory`: `new` succeeds.
unfoldable pub timer_create : Bool → Bool → ℕ × Bool
timer_create memory out_null =
    if out_null
    then (code_invalid_argument, true)
    else if memory
    then (code_ok, false)
    else (code_internal_error, true)

module _ (clock : Clock) where
  -- The code, and `*value` after it (`none` if the pointer is null).
  unfoldable pub timer_monotonic_ms : Bool → Bool → clock.World → ℕ × Option ℕ
  timer_monotonic_ms null value_null w =
      if null || value_null
      then (code_invalid_argument, if value_null then none else some 0)
      else let r = monotonic_milliseconds clock w in (to_c_status r.0, some r.1)

  unfoldable pub timer_sleep_for : Bool → ℕ → clock.World → ℕ × clock.World
  timer_sleep_for null duration_ms w =
      if null
      then (code_invalid_argument, w)
      else let r = sleep_for clock (duration duration_ms) w in (to_c_status r.0, r.1)

-- Any number of sleeps through one handle: whether all were Ok, and the world after them.
unfoldable pub timer_sleeps : (clock : Clock) → Bool → List ℕ → clock.World → Bool × clock.World
timer_sleeps clock null [] w = (true, w)
timer_sleeps clock null (duration_ms ∷ later) w =
    let slept = timer_sleep_for clock null duration_ms w in
    let rest = timer_sleeps clock null later slept.1 in (slept.0 == code_ok && rest.0, rest.1)

abbrev pub total : List ℕ → ℕ
total [] = 0
total (n ∷ ns) = n + total ns

-- Whole milliseconds: rounding down does not shorten a sleep.
elapsed_after :
    (clock : Clock)
    → IsSteady clock
    → (milliseconds : ℕ) (w : clock.World)
    → clock.now w / clock.ticks + milliseconds
      ≤ clock.now (clock.sleep_for milliseconds w) / clock.ticks
elapsed_after clock steady milliseconds w =
    let long = steady.sleeps milliseconds w in
    let rounded = div-mul-le_self (clock.now w + milliseconds * clock.ticks) clock.ticks in
    let whole : (clock.now w + milliseconds * clock.ticks) / clock.ticks
        ≤ clock.now (clock.sleep_for milliseconds w) / clock.ticks =
      (le-div_iff_mul-le steady.some_ticks).1 (omega (arith, rounded, long)) in
    rw (← add-mul-div_right (clock.now w) milliseconds steady.some_ticks) whole

sleeps-elapsed :
    (clock : Clock)
    → IsSteady clock
    → (durations : List ℕ) (w : clock.World)
    → let slept = timer_sleeps clock false durations w in
      (slept.0 ≡ true)
      × (clock.now w / clock.ticks + total durations ≤ clock.now slept.1 / clock.ticks)
unfolding timer_sleeps timer_sleep_for sleep_for to_c_status
sleeps-elapsed clock steady [] w = (refl, omega arith)
sleeps-elapsed clock steady (d ∷ later) w =
    let rest = sleeps-elapsed clock steady later (clock.sleep_for d w) in
    (rest.0, omega (arith, rest.1, elapsed_after clock steady d w))

-- With a timer that `dlms_transport_timer_create` has made, on a steady clock of any resolution that
-- is below 2 ^ 64 milliseconds at the end: any number of `dlms_transport_timer_sleep_for` are all Ok,
-- so are the readings before and after them, and the readings, in whole milliseconds, differ at least by
-- the sum of the durations, so that rounding down loses none of it.
pub timer_waits :
    (clock : Clock)
    → IsSteady clock
    → (durations : List ℕ) (w : clock.World)
    → clock.now (timer_sleeps clock (timer_create true false).1 durations w).1 / clock.ticks
      < 2 ^ 64
    → let made = timer_create true false in
      let slept = timer_sleeps clock made.1 durations w in
      (made.0 ≡ code_ok)
      × (slept.0 ≡ true)
      × (before after : ℕ) × (timer_monotonic_ms clock made.1 false w ≡ (code_ok, some before))
      × (timer_monotonic_ms clock made.1 false slept.1 ≡ (code_ok, some after))
      × (before + total durations ≤ after)
unfolding timer_create timer_monotonic_ms monotonic_milliseconds to_c_status
timer_waits clock steady durations w below =
    let slept = sleeps-elapsed clock steady durations w in
    (
      refl,
      slept.0,
      clock.now w / clock.ticks % 2 ^ 64,
      clock.now (timer_sleeps clock false durations w).1 / clock.ticks % 2 ^ 64,
      refl,
      refl,
      omega (arith, slept.1, below),
    )
