-- ===== src/EventLoop/Validity.antt =====
-- When the table of the manual event loop is in order.
use dlms_transport.Prelude.{ℕ, suc, ◌≤◌, List, [], ◌∷◌, ◌==◌, if_cases, arith}
use dlms_transport.EventLoop.Table.{assign, Within}
use dlms_transport.EventLoop.Tables.{assign-Within, Within-mono}
use dlms_transport.EventLoop.Manual.{
  TransportEvent, Registration, ManualTransportEventLoop, event_none, ready, collect,
}

module _ {C : Type 0} where
  -- Every token in the table was handed out before, and the table is in order.
  abbrev pub IsValid : ManualTransportEventLoop C → Type 0
  IsValid l = Within 1 l.next_token l.registrations

  pub add-Within :
      (r : Registration C) (n : ℕ) (m : List (ℕ × Registration C))
      → 1 ≤ n
      → Within 1 n m
      → Within 1 (suc n) (assign n r m)
  add-Within r n m p h =
      assign-Within n r 1 (suc n) m p (omega arith)
        (Within-mono 1 1 n (suc n) m (omega arith) (omega arith) h)

  pub Within-low : (low high : ℕ) (m : List (ℕ × Registration C)) → Within low high m → low ≤ high
  Within-low low high [] h = h
  Within-low low high ((i, r) ∷ m) h = omega arith

  pub collect-Within :
      (low high : ℕ) (m : List (ℕ × Registration C))
      → Within low high m
      → Within low high (collect m).1
  unfolding collect
  collect-Within low high [] h = h
  collect-Within low high ((token, r) ∷ m) h =
      if_cases (λ (c : List TransportEvent × List (ℕ × Registration C)). Within low high c.1)
        (ready r == event_none) (λ e. (h.0, h.1, collect-Within (suc token) high m h.2))
        (λ e. (h.0, h.1, collect-Within (suc token) high m h.2))
