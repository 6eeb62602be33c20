-- ===== src/Os/Traffic.antt =====
-- The bytes that the system has taken over for a descriptor, and how long it may put a sender off.
use dlms_transport.Prelude.{
  ℕ, ℤ, ◌==ℤ◌, ==ℤ_refl, ◌≤◌, ◌<◌, ◌≡◌, refl, Bool, true, false, not, ◌||◌, ◌==◌, is_zero, ◌&&◌, [],
  ◌∷◌, ◌++◌, take, if◌then◌else◌, is_positive, is_negative, to_size, arith,
}
use dlms_transport.Buffer.{Bytes}
use dlms_transport.Os.Events.{Os, Event, History, Timeval}
use dlms_transport.Os.Calls.{
  call_send, call_select, call_write, call_recv, call_read, call_close, call_pending,
}

-- A transfer with a positive result took that many bytes from the front.
abbrev pub taken : Bytes → ℤ → Bytes
taken xs r = if is_positive r then take (to_size r) xs else []

abbrev pub accepted_after : Event → ℤ → Bytes → Bytes
accepted_after (Event.send j xs len r) fd before = if j ==ℤ fd then before ++ taken xs r else before
accepted_after (Event.write j xs len r) fd before =
    if j ==ℤ fd then before ++ taken xs r else before
accepted_after _ fd before = before

-- All bytes taken over for the descriptor, in order.
unfoldable pub accepted : ℤ → History → Bytes
accepted fd [] = []
accepted fd (e ∷ h) = accepted_after e fd (accepted fd h)

abbrev pub delivered_after : Event → ℤ → Bytes → Bytes
delivered_after (Event.recv j len r) fd before =
    if j ==ℤ fd && not (is_negative r.0) then before ++ r.1 else before
delivered_after (Event.read j len r) fd before =
    if j ==ℤ fd && not (is_negative r.0) then before ++ r.1 else before
delivered_after _ fd before = before

-- All bytes taken from the descriptor, in order.
unfoldable pub delivered : ℤ → History → Bytes
delivered fd [] = []
delivered fd (e ∷ h) = delivered_after e fd (delivered fd h)

pub delivered-call_close :
    (fd j : ℤ) (h : History) → delivered j (call_close fd h).1 ≡ delivered j h
unfolding call_close delivered
delivered-call_close fd j h = refl

module _ (os : Os) where
  pub delivered-call_recv :
      (fd : ℤ) (len : ℕ) (h : History)
      → delivered fd (call_recv os fd len h).1 ≡ (
          if is_negative (call_recv os fd len h).0.0
          then delivered fd h
          else delivered fd h ++ (call_recv os fd len h).0.1)
  unfolding call_recv delivered
  delivered-call_recv fd len h = ground (arith, ==ℤ_refl fd)

  pub delivered-call_read :
      (fd : ℤ) (len : ℕ) (h : History)
      → delivered fd (call_read os fd len h).1 ≡ (
          if is_negative (call_read os fd len h).0.0
          then delivered fd h
          else delivered fd h ++ (call_read os fd len h).0.1)
  unfolding call_read delivered
  delivered-call_read fd len h = ground (arith, ==ℤ_refl fd)

  pub delivered-call_select :
      (fd j : ℤ) (r : Bool) (t : Timeval) (h : History)
      → delivered j (call_select os fd r t h).1 ≡ delivered j h
  unfolding call_select delivered
  delivered-call_select fd j r t h = refl

  pub delivered-call_pending :
      (fd j : ℤ) (h : History) → delivered j (call_pending os fd h).1 ≡ delivered j h
  unfolding call_pending delivered
  delivered-call_pending fd j h = refl

  pub accepted-call_send :
      (fd : ℤ) (xs : Bytes) (len : ℕ) (h : History)
      → accepted fd (call_send os fd xs len h).1
        ≡ accepted fd h ++ taken xs (call_send os fd xs len h).0
  unfolding call_send accepted
  accepted-call_send fd xs len h = ground (arith, ==ℤ_refl fd)

  pub accepted-call_write :
      (fd : ℤ) (xs : Bytes) (len : ℕ) (h : History)
      → accepted fd (call_write os fd xs len h).1
        ≡ accepted fd h ++ taken xs (call_write os fd xs len h).0
  unfolding call_write accepted
  accepted-call_write fd xs len h = ground (arith, ==ℤ_refl fd)

  pub accepted-call_select :
      (fd j : ℤ) (r : Bool) (t : Timeval) (h : History)
      → accepted j (call_select os fd r t h).1 ≡ accepted j h
  unfolding call_select accepted
  accepted-call_select fd j r t h = refl

  -- The system does not put a writer off for ever: it keeps a count that falls with each transfer
  -- that it refuses, and that grows neither with other transfers nor with waiting.
  pub record IsPatient (patience : History → ℕ) : Type 0 where
    pub select_patience :
        (h : History) (fd : ℤ) (r : Bool) (t : Timeval)
        → patience (call_select os fd r t h).1 ≤ patience h
    pub send_patience :
        (h : History) (fd : ℤ) (xs : Bytes) (len : ℕ)
        → patience (call_send os fd xs len h).1 ≤ patience h
    pub send_refused :
        (h : History) (fd : ℤ) (xs : Bytes) (len : ℕ)
        → is_negative (call_send os fd xs len h).0 ≡ true
        → patience (call_send os fd xs len h).1 < patience h
    pub write_patience :
        (h : History) (fd : ℤ) (xs : Bytes) (len : ℕ)
        → patience (call_write os fd xs len h).1 ≤ patience h
    pub write_refused :
        (h : History) (fd : ℤ) (xs : Bytes) (len : ℕ)
        → is_negative (call_write os fd xs len h).0 ≡ true
        → patience (call_write os fd xs len h).1 < patience h

-- The system takes what it is given: every wait ends ready, no transfer of some bytes answers 0,
-- and the only errors are the ones that ask for another try.
pub record IsWilling (os : Os) : Type 0 where
  pub select_ready :
      (h : History) (fd : ℤ) (r : Bool) (t : Timeval) → is_positive (os.select h fd r t) ≡ true
  pub send_moves :
      (h : History) (fd : ℤ) (xs : Bytes) (len : ℕ)
      → 0 < len
      → is_zero (os.send h fd xs len) ≡ false
  pub refusal_is_would_block :
      (h : History)
      → (os.errno h == os.einprogress || (os.errno h == os.ewouldblock || os.errno h == os.eagain))
        ≡ true
