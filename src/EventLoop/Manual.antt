-- ===== src/EventLoop/Manual.antt =====
-- An `int` is its 32 bits, as a number below 2 ^ 32: a mask is one anyway, and tokens are compared
-- and counted up. The order of the table is that of `int` as long as the tokens are not negative, which
-- they become when `nextToken_++` overflows, after 2 ^ 31 - 1 registrations; in C++ that is undefined.
--
-- `ManualTransportEventLoop`. Its callbacks are the user's code: a type of callbacks and what a call
-- of one does, to the loop and to the rest of the world, are parameters.
use Prim.Native.Nat.{bit_and}
use dlms_transport.Prelude.{
  ℕ, ◌+◌, ◌%◌, ◌^◌, ℤ, pos, Bool, true, false, List, [], ◌∷◌, Option, none, some, is_empty, ◌==◌,
  if◌then◌else◌,
}
use dlms_transport.Status.{Status, ok, invalid_argument, not_open, would_block}
use dlms_transport.Timer.{TransportDuration}
use dlms_transport.EventLoop.Table.{find, erase, assign}

-- TransportEventMask
abbrev pub event_none : ℕ
event_none = 0

abbrev pub event_readable : ℕ
event_readable = 1

abbrev pub event_writable : ℕ
event_writable = 2

abbrev pub event_timer : ℕ
event_timer = 4

pub record TransportEvent : Type 0 where
  pub token : ℕ
  pub handle : ℤ
  pub events : ℕ

pub record Registration (C : Type 0) : Type 0 where
  pub handle : ℤ
  pub events : ℕ
  pub callback : C
  pub ready_events : ℕ
  pub timer_delay : TransportDuration
  pub timer : Bool

pub record ManualTransportEventLoop (C : Type 0) : Type 0 where
  pub next_token : ℕ
  pub registrations : List (ℕ × Registration C)

-- `nextToken_++`, on the 32 bits.
abbrev pub token_after : ℕ → ℕ
token_after token = (token + 1) % 2 ^ 32

module _ {C : Type 0} where
  unfoldable pub new_loop : ManualTransportEventLoop C
  new_loop = record { next_token = 1; registrations = [] }

  -- `token = nextToken_++; registrations_[token] = registration;`
  abbrev pub add_registration :
      Registration C → ManualTransportEventLoop C → (Status × ℕ) × ManualTransportEventLoop C
  add_registration r l = (
    (ok, l.next_token),
    record {
      next_token = token_after l.next_token;
      registrations = assign l.next_token r l.registrations;
    },
  )

  -- The status and the token. An empty `std::function` is `none`.
  unfoldable pub register :
      ℤ → ℕ → Option C → ManualTransportEventLoop C → (Status × ℕ) × ManualTransportEventLoop C
  register handle events none l = ((invalid_argument, 0), l)
  register handle events (some callback) l =
      if events == event_none
      then ((invalid_argument, 0), l)
      else add_registration
          (record {
            handle = handle;
            events = events;
            callback = callback;
            ready_events = event_none;
            timer_delay = record { milliseconds = 0 };
            timer = false;
          })
          l

  unfoldable pub register_timer :
      TransportDuration
      → Option C
      → ManualTransportEventLoop C
      → (Status × ℕ) × ManualTransportEventLoop C
  register_timer delay none l = ((invalid_argument, 0), l)
  register_timer delay (some callback) l =
      add_registration
        (record {
          handle = pos 0;
          events = event_timer;
          callback = callback;
          ready_events = event_timer;
          timer_delay = delay;
          timer = true;
        })
        l

  unfoldable pub unregister : ℕ → ManualTransportEventLoop C → Status × ManualTransportEventLoop C
  unregister token l = (ok, record l { registrations = erase token l.registrations })

  unfoldable pub set_ready :
      ℕ → ℕ → ManualTransportEventLoop C → Status × ManualTransportEventLoop C
  set_ready token events l = elim (find token l.registrations) [
    | none ↦ (not_open, l)
    | some r ↦ (
      ok,
      record l {
        registrations = assign token (record r { ready_events = events }) l.registrations;
      },
    )
  ]

  -- `readyEvents & events`
  abbrev pub ready : Registration C → ℕ
  ready r = bit_and r.ready_events r.events

  abbrev pub event_of : ℕ → Registration C → TransportEvent
  event_of token r = record { token = token; handle = r.handle; events = ready r }

  -- A timer that is handed out is no longer ready.
  abbrev pub disarm : Registration C → Registration C
  disarm r = if r.timer then record r { ready_events = event_none } else r

  -- The first loop of `DispatchOnce`: the events, and the table after it.
  unfoldable pub collect :
      List (ℕ × Registration C) → List TransportEvent × List (ℕ × Registration C)
  collect [] = ([], [])
  collect ((token, r) ∷ m) =
      let rest = collect m in
      if ready r == event_none
      then (rest.0, (token, r) ∷ rest.1)
      else (event_of token r ∷ rest.0, (token, disarm r) ∷ rest.1)

module _ {C W : Type 0}
    (invoke : C
      → TransportEvent
      → ManualTransportEventLoop C
      → W
      → ManualTransportEventLoop C × W) where
  abbrev pub invoke_found :
      Option (Registration C)
      → TransportEvent
      → ManualTransportEventLoop C
      → W
      → ManualTransportEventLoop C × W
  invoke_found none e l w = (l, w)
  invoke_found (some r) e l w = invoke r.callback e l w

  -- The second loop: each event goes to the callback that its token has by then, if it has one.
  unfoldable pub call_all :
      List TransportEvent → ManualTransportEventLoop C → W → ManualTransportEventLoop C × W
  call_all [] l w = (l, w)
  call_all (e ∷ es) l w =
      let r = invoke_found (find e.token l.registrations) e l w in call_all es r.0 r.1

  unfoldable pub dispatch_once :
      ManualTransportEventLoop C → W → Status × ManualTransportEventLoop C × W
  unfolding call_all collect
  dispatch_once l w =
      let c = collect l.registrations in
      let r = call_all c.0 (record l { registrations = c.1 }) w in
      (if is_empty c.0 then would_block else ok, r.0, r.1)
