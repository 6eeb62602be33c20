-- ===== src/EventLoop/Dispatch.antt =====
-- What the manual event loop promises: fresh tokens, and which callbacks a dispatch calls.
use Prim.Native.Nat.{bit_and, bit_and-bitwise}
use dlms_transport.Prelude.{
  ℕ, suc, ℤ, ◌+◌, ◌^◌, not, ◌&&◌, ◌<◌, ◌≡◌, refl, sym, ap, ◌∙◌, ◌≢◌, true, false, List, [], ◌∷◌,
  ◌++◌, none, some, is_empty, ◌==◌, ==_refl, if◌then◌else◌, Bool-cases, inl, inr, append_assoc,
  append-nil, arith,
}
use mathlib.Core.Path.{subst}
use dlms_transport.Status.{ok, would_block}
use dlms_transport.EventLoop.Table.{find, Within}
use dlms_transport.EventLoop.Tables.{find-assign, find_above}
use dlms_transport.EventLoop.Validity.{IsValid, collect-Within, add-Within, Within-low}
use dlms_transport.EventLoop.Manual.{
  TransportEvent, Registration, ManualTransportEventLoop, event_none, token_after, register, ready,
  event_of, collect, invoke_found, call_all, dispatch_once,
}

module _ {C : Type 0} where
  -- While the counter of tokens has not reached the greatest `int`, in a loop whose tokens are below
  -- the counter: registering a callback for some event gives a token that no registration has, under
  -- which the new registration, not ready, is found; every other token keeps what it had; and the
  -- tokens are below the counter again, which is an `int` that is not negative.
  pub register_fresh :
      (handle : ℤ) (events : ℕ) (callback : C) (l : ManualTransportEventLoop C)
      → events ≢ event_none
      → IsValid l
      → l.next_token + 1 < 2 ^ 31
      → let r = register handle events (some callback) l in
        (r.0 ≡ (ok, l.next_token))
        × (find l.next_token l.registrations ≡ none)
        × IsValid r.1
        × (r.1.next_token ≡ suc l.next_token)
        × ((j : ℕ)
            → find j r.1.registrations ≡ (
                if l.next_token == j
                then some (record {
                  handle = handle;
                  events = events;
                  callback = callback;
                  ready_events = event_none;
                  timer_delay = record { milliseconds = 0 };
                  timer = false;
                })
                else find j l.registrations))
  unfolding register
  register_fresh handle events callback l some_event v small =
      let test : (events == event_none) ≡ false = ground arith in
      let counted : token_after l.next_token ≡ suc l.next_token = omega arith in
      rw test (
        refl,
        find_above l.next_token 1 l.next_token l.registrations v (omega arith),
        rw counted (add-Within _ l.next_token l.registrations (Within-low _ _ _ v) v),
        counted,
        λ j. find-assign l.next_token j _ 1 l.next_token l.registrations v,
      )

  -- What a dispatch has to call: the callbacks of the registrations with an event, among those they
  -- were registered for, that is ready; in the order of tokens, and with these events.
  abbrev pub due : List (ℕ × Registration C) → List (C × TransportEvent)
  due [] = []
  due ((token, r) ∷ m) =
      let rest = due m in
      let events = bit_and r.ready_events r.events in
      if events == 0
      then rest
      else (r.callback, record { token = token; handle = r.handle; events = events }) ∷ rest

  -- A registration after a dispatch: a timer that was due is not ready any more, all else is as it was.
  abbrev pub after_dispatch : Registration C → Registration C
  after_dispatch r =
      if r.timer && not (bit_and r.ready_events r.events == 0)
      then record {
        handle = r.handle;
        events = r.events;
        callback = r.callback;
        ready_events = 0;
        timer_delay = r.timer_delay;
        timer = true;
      }
      else r

  abbrev Found : List (ℕ × Registration C) → List (ℕ × Registration C) → Type 0
  Found table [] = Unit {0}
  Found table ((token, r) ∷ m) = (find token table ≡ some (after_dispatch r)) × Found table m

  Found-cons :
      (i : ℕ) (x : Registration C) (table m : List (ℕ × Registration C)) (low high : ℕ)
      → i < low
      → Within low high m
      → Found table m
      → Found ((i, x) ∷ table) m
  unfolding find
  Found-cons i x table [] low high l h f = tt
  Found-cons i x table ((token, r) ∷ m) low high l h f =
      (ground arith, Found-cons i x table m (suc token) high (omega arith) h.2 f.1)

  -- The table after a dispatch.
  abbrev pub dispatched : List (ℕ × Registration C) → List (ℕ × Registration C)
  dispatched [] = []
  dispatched ((token, r) ∷ m) = (token, after_dispatch r) ∷ dispatched m

  collect-dispatched : (m : List (ℕ × Registration C)) → (collect m).1 ≡ dispatched m
  unfolding collect
  collect-dispatched [] = refl
  collect-dispatched ((token, r) ∷ m) = ground (arith, collect-dispatched m)

  dispatched-Found :
      (m : List (ℕ × Registration C)) (low high : ℕ) → Within low high m → Found (dispatched m) m
  unfolding find
  dispatched-Found [] low high h = tt
  dispatched-Found ((token, r) ∷ m) low high h = (
    rw (==_refl token),
    Found-cons token (after_dispatch r) (dispatched m) m (suc token) high (omega arith) h.2
        (dispatched-Found m (suc token) high h.2),
  )

  -- A callback that only writes down that it was called, and with what.
  abbrev pub record_call :
      C
      → TransportEvent
      → ManualTransportEventLoop C
      → List (C × TransportEvent)
      → ManualTransportEventLoop C × List (C × TransportEvent)
  record_call c e l log = (l, log ++ (c, e) ∷ [])

  after_dispatch_callback : (r : Registration C) → (after_dispatch r).callback ≡ r.callback
  after_dispatch_callback r = ground arith

  call_all-recorded :
      (m : List (ℕ × Registration C)) (l : ManualTransportEventLoop C)
      (log : List (C × TransportEvent))
      → Found l.registrations m
      → call_all record_call (collect m).0 l log ≡ (l, log ++ due m)
  unfolding call_all collect
  call_all-recorded [] l log f = ap (λ x. (l, x)) (sym (append-nil log))
  call_all-recorded ((token, r) ∷ m) l log f = elim (Bool-cases (ready r == event_none)) [
    | inl idle ↦ rw idle (call_all-recorded m l log f.1)
    | inr due_now ↦ rw due_now (
        ap
          (λ o.
            call_all record_call (collect m).0
              (invoke_found record_call o (event_of token r) l log).0
              (invoke_found record_call o (event_of token r) l log).1)
          f.0
        ∙ ap (λ c. call_all record_call (collect m).0 l (log ++ (c, event_of token r) ∷ []))
            (after_dispatch_callback r)
        ∙ (call_all-recorded m l (log ++ (r.callback, event_of token r) ∷ []) f.1
            ∙ ap (λ x. (l, x)) (append_assoc log _ (due m))))
  ]

  collect-is_empty : (m : List (ℕ × Registration C)) → is_empty (collect m).0 ≡ is_empty (due m)
  unfolding collect
  collect-is_empty [] = refl
  collect-is_empty ((token, r) ∷ m) = ground (arith, collect-is_empty m)

  -- With callbacks that leave the loop alone, a dispatch of a valid loop calls exactly the
  -- callbacks of the ready registrations, each once, with its token, handle and those of its
  -- events that are ready, in the order of the tokens. It returns `Ok` if there are any and
  -- `WouldBlock` if not, and takes the readiness from the timers among them.
  pub dispatch_once-due :
      (l : ManualTransportEventLoop C) (log : List (C × TransportEvent))
      → IsValid l
      → dispatch_once record_call l log ≡ (
        if is_empty (due l.registrations) then would_block else ok,
        record l { registrations = dispatched l.registrations },
        log ++ due l.registrations,
      )
  unfolding dispatch_once
  dispatch_once-due l log v = rw (
    call_all-recorded l.registrations (record l { registrations = (collect l.registrations).1 }) log
        (rw collect-dispatched (dispatched-Found l.registrations 1 l.next_token v)),
    collect-is_empty,
    collect-dispatched,
  )

  -- The registrations that are no timers.
  abbrev pub plain : List (ℕ × Registration C) → List (ℕ × Registration C)
  plain [] = []
  plain ((token, r) ∷ m) = let rest = plain m in if r.timer then rest else (token, r) ∷ rest

  ready-after_dispatch :
      (r : Registration C) → r.timer ≡ true → (ready (after_dispatch r) == event_none) ≡ true
  ready-after_dispatch r timer = elim (Bool-cases (ready r == event_none)) [
    | inl idle ↦ rw (idle, timer) idle
    | inr due_now ↦ rw (due_now, timer) (ap (λ n. n == event_none) (bit_and-bitwise 0 r.events))
  ]

  after_dispatch_plain : (r : Registration C) → r.timer ≡ false → after_dispatch r ≡ r
  after_dispatch_plain r e = ground arith

  due-dispatched : (m : List (ℕ × Registration C)) → due (dispatched m) ≡ due (plain m)
  due-dispatched [] = refl
  due-dispatched ((token, r) ∷ m) = elim (Bool-cases r.timer) [
    | inl timer ↦ rw (ready-after_dispatch r timer, timer) (due-dispatched m)
    | inr other ↦ rw (after_dispatch_plain r other, other) (ground (arith, due-dispatched m))
  ]

  -- A timer fires once: of two dispatches in a row, over callbacks that leave the loop alone, the
  -- second calls the callbacks of those ready registrations that are no timers.
  pub dispatch_once_twice :
      (l : ManualTransportEventLoop C) (log : List (C × TransportEvent))
      → IsValid l
      → let first = dispatch_once record_call l log in
        (dispatch_once record_call first.1 first.2).2
        ≡ (log ++ due l.registrations) ++ due (plain l.registrations)
  dispatch_once_twice l log v =
      ap (λ r. (dispatch_once record_call r.1 r.2).2) (dispatch_once-due l log v)
      ∙ ap (λ r. r.2) (dispatch_once-due again (log ++ due l.registrations) valid)
      ∙ ap (λ x. (log ++ due l.registrations) ++ x) (due-dispatched l.registrations)
    where
      again : ManualTransportEventLoop C
      again = record l { registrations = dispatched l.registrations }

      valid : IsValid again
      valid =
          subst (Within 1 l.next_token) (collect-dispatched l.registrations)
            (collect-Within 1 l.next_token l.registrations v)
