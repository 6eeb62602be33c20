-- ===== src/Tests/EventLoop.antt =====
-- Runs of the manual event loop.
use dlms_transport.Prelude.{
  ℕ, pos, ◌≡◌, true, false, [], ◌∷◌, ◌++◌, some, none, ◌==◌, if◌then◌else◌, arith,
}
use dlms_transport.Status.{ok}
use dlms_transport.EventLoop.Table.{find}
use dlms_transport.EventLoop.Manual.{
  Registration, ManualTransportEventLoop, register, dispatch_once, event_none,
}
use dlms_transport.EventLoop.Validity.{IsValid}
use dlms_transport.EventLoop.Dispatch.{
  register_fresh, due, dispatched, record_call, dispatch_once-due, dispatch_once_twice,
}

-- A ready socket under the first token, and a timer under the second. A callback is a number.
abbrev socket_entry : Registration ℕ
socket_entry = record {
  handle = pos 9;
  events = 3;
  callback = 20;
  ready_events = 1;
  timer_delay = record { milliseconds = 0 };
  timer = false;
}

abbrev timer_entry : Registration ℕ
timer_entry = record {
  handle = pos 0;
  events = 4;
  callback = 1;
  ready_events = 4;
  timer_delay = record { milliseconds = 50 };
  timer = true;
}

abbrev busy : ManualTransportEventLoop ℕ
busy = record { next_token = 3; registrations = (1, socket_entry) ∷ (2, timer_entry) ∷ [] }

busy-IsValid : IsValid busy
busy-IsValid = omega arith

register_fresh_example :
    let r = register (pos 5) 1 (some 8) busy in
    (r.0 ≡ (ok, 3))
    × (find 3 busy.registrations ≡ none)
    × IsValid r.1
    × (r.1.next_token ≡ 4)
    × ((j : ℕ)
        → find j r.1.registrations ≡ (
            if 3 == j
            then some (record {
              handle = pos 5;
              events = 1;
              callback = 8;
              ready_events = event_none;
              timer_delay = record { milliseconds = 0 };
              timer = false;
            })
            else find j busy.registrations))
register_fresh_example = register_fresh (pos 5) 1 8 busy (omega arith) busy-IsValid (omega arith)

dispatch_once-due_example : dispatch_once record_call busy [] ≡ (
  ok,
  record { next_token = 3; registrations = dispatched busy.registrations },
  (20, record { token = 1; handle = pos 9; events = 1 })
      ∷ (1, record { token = 2; handle = pos 0; events = 4 })
      ∷ [],
)
dispatch_once-due_example = dispatch_once-due busy [] busy-IsValid

dispatch_once_twice_example :
    let first = dispatch_once record_call busy [] in
    (dispatch_once record_call first.1 first.2).2
    ≡ due busy.registrations ++ (20, record { token = 1; handle = pos 9; events = 1 }) ∷ []
dispatch_once_twice_example = dispatch_once_twice busy [] busy-IsValid
