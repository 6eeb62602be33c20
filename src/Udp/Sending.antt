-- ===== src/Udp/Sending.antt =====
-- What one `Send` of the UDP transport has the system take over.
use dlms_transport.Prelude.{
  ℕ, ℤ, pos, negsuc, zero, suc, ◌^◌, ◌≤◌, ◌<◌, ◌≡◌, refl, sym, ap, ◌∙◌, Bool, true, false, not,
  ◌++◌, length, take, append-nil, ◌==◌, if◌then◌else◌, to_int, to_size, to_size-to_int, arith,
}
use dlms_transport.Status.{
  Status, ok, not_open, invalid_argument, timeout, write_failed, would_block, is_ok, is_timeout,
}
use dlms_transport.Buffer.{Bytes, Input, contents, bad_input}
use dlms_transport.Os.{
  Os, History, IsPosix, accepted, taken, accepted-call_send, accepted-call_select, call_send,
  last_error, Ends, Ends-return, Ends-bind, Ends-if,
}
use dlms_transport.Tcp.Socket.{wait_for_socket, to_timeval}
use dlms_transport.Udp.Socket.{is_would_block}
use dlms_transport.Udp.Transport.{UdpTransport, sent_status, send}

-- The status by the bytes taken over: all for `Ok`, none for a refusal. No other status occurs.
abbrev pub Verdict : Status → ℕ → ℕ → Type 0
Verdict ok n total = n ≡ total
Verdict write_failed n total = n ≤ total
Verdict not_open n total = n ≡ 0
Verdict invalid_argument n total = n ≡ 0
Verdict timeout n total = n ≡ 0
Verdict would_block n total = n ≡ 0
Verdict _ n total = ⊥

pub record Takes (fd : ℤ) (xs : Bytes) (h : History) (s : Status) (k : History) : Type 0 where
  pub count : ℕ
  pub verdict : Verdict s count (length xs)
  pub front : accepted fd k ≡ accepted fd h ++ take count xs

module _ (os : Os) (posix : IsPosix os) (fd : ℤ) (xs : Bytes) where
  Takes-nothing :
      {h k : History} (s : Status)
      → Verdict s 0 (length xs)
      → accepted fd k ≡ accepted fd h
      → Takes fd xs h s k
  Takes-nothing s v e = record { count = 0; verdict = v; front = e ∙ sym (append-nil _) }

  -- A `send` of the whole input.
  record Sent (h : History) (count : ℤ) (k : History) : Type 0 where
    within : (n : ℕ) → count ≡ pos n → n ≤ length xs
    log : accepted fd k ≡ accepted fd h ++ taken xs count

  send-Sent :
      (h : History)
      → length xs < 2 ^ 31
      → Ends (call_send os fd xs (to_size (to_int (length xs)))) h (Sent h)
  send-Sent h short = record {
    at = record {
      within = λ n e.
          let s = to_size-to_int (length xs) short in let b = bound n e in omega (arith, s, b);
      log = accepted-call_send os fd xs _ h;
    };
  }
    where
      left : ℕ
      left = to_size (to_int (length xs))

      bound : (n : ℕ) → (call_send os fd xs left h).0 ≡ pos n → n ≤ left
      bound n e = unfold call_send in posix.send_bound h fd xs left n e

  taken_pos : (n : ℕ) → taken xs (pos n) ≡ take n xs
  taken_pos zero = refl
  taken_pos (suc n) = refl

  refusal-Verdict : (b : Bool) → Verdict (if b then would_block else write_failed) 0 (length xs)
  refusal-Verdict true = refl
  refusal-Verdict false = omega arith

  count-Verdict :
      (n : ℕ) → n ≤ length xs → Verdict (if n == length xs then ok else write_failed) n (length xs)
  count-Verdict n l = go (n == length xs) refl
    where
      go :
          (b : Bool) → (n == length xs) ≡ b → Verdict (if b then ok else write_failed) n (length xs)
      go true e = ground arith
      go false e = l

  sent_status-Takes :
      (count : ℤ) (h k l : History)
      → accepted fd k ≡ accepted fd h
      → Sent k count l
      → Ends (sent_status os (length xs) count) l (Takes fd xs h)
  unfolding sent_status
  sent_status-Takes (pos n) h k l e sent = Ends-return _ (record {
    count = n;
    verdict = count-Verdict n (sent.within n refl);
    front = sent.log ∙ ap (◌++◌ (accepted fd k)) (taken_pos n) ∙ ap (λ b. b ++ take n xs) e;
  })
  sent_status-Takes (negsuc n) h k l e sent =
      Ends-bind {P = λ error m. accepted fd m ≡ accepted fd h}
        (unfold last_error in record { at = sent.log ∙ append-nil _ ∙ e })
        λ error m p. Ends-return _ (Takes-nothing _ (refusal-Verdict (is_would_block os error)) p)

  waited-Verdict :
      (s : Status) → Verdict (if is_timeout s then timeout else write_failed) 0 (length xs)
  waited-Verdict timeout = refl
  waited-Verdict _ = omega arith

  pub wait_for_socket-idle :
      (t : UdpTransport) (h : History)
      → Ends
          (wait_for_socket os fd false t.options.send_timeout)
          h
          (λ s k. accepted fd k ≡ accepted fd h)
  unfolding wait_for_socket
  wait_for_socket-idle t h =
      Ends-bind {P = λ s k. accepted fd k ≡ accepted fd h}
        (record { at = accepted-call_select os fd fd false (to_timeval t.options.send_timeout) h })
        λ s k p. Ends-return _ p

-- `Send` of an input that fits an `int`, over a POSIX system, in every state and on every branch:
-- the system has taken over a front part of the input for the socket, the whole of it if the status
-- is `Ok`, nothing if it is `NotOpen`, `InvalidArgument`, `Timeout` or `WouldBlock`; the only other
-- status is `WriteFailed`.
pub send-Takes :
    (os : Os)
    → IsPosix os
    → (input : Input) (t : UdpTransport) (h : History) → length (contents input) < 2 ^ 31
    → let r = send os input t h in Takes t.socket (contents input) h r.0 r.1
send-Takes os posix input t h short = ended.at
  where
    ended : Ends (send os input t) h (Takes t.socket (contents input) h)
    ended =
        unfold send in
        Ends-if (not t.is_open) (λ e. Ends-return _ (nothing not_open refl refl))
          λ e.
            Ends-if (not t.remote_configured)
              (λ e. Ends-return _ (nothing invalid_argument refl refl))
              λ e.
                Ends-if (bad_input input) (λ e. Ends-return _ (nothing invalid_argument refl refl))
                  λ e. Ends-bind (wait_for_socket-idle os posix t.socket xs t h) λ waited k p.
                    Ends-if (not (is_ok waited))
                      (λ e.
                        Ends-return _ (nothing _ (waited-Verdict os posix t.socket xs waited) p))
                      λ e.
                        Ends-bind (send-Sent os posix t.socket xs k short)
                          λ count l sent. sent_status-Takes os posix t.socket xs count h k l p sent
      where
        xs : Bytes
        xs = contents input

        nothing :
            {k : History} (s : Status)
            → Verdict s 0 (length (contents input))
            → accepted t.socket k ≡ accepted t.socket h
            → Takes t.socket (contents input) h s k
        nothing = Takes-nothing os posix t.socket (contents input)
