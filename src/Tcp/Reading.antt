-- ===== src/Tcp/Reading.antt =====
-- `ReadSome` of the TCP client: what it hands out, and when it closes the object.
use dlms_transport.Prelude.{
  length_zero, zero, suc, ℤ, pos, negsuc, ◌==ℤ◌, ◌^◌, ◌<◌, ◌≡◌, refl, ap, ◌∙◌, Bool, true, false,
  not, ◌++◌, ◌==◌, if◌then◌else◌, append-nil, arith,
}
use dlms_transport.Status.{Status, ok, connection_closed, would_block, read_failed, is_ok}
use dlms_transport.Buffer.{Bytes, Output, bad_output, Read, no_bytes}
use dlms_transport.Timer.{TransportDuration}
use dlms_transport.Os.{
  Os, History, IsPosix, invalid, delivered, delivered-call_select, delivered-call_close, last_error,
  Ends, Ends-return, Ends-bind, Ends-then, Ends-if, Hands, Hands-nothing, Got, recv-Got,
}
use dlms_transport.Tcp.Socket.{is_would_block, wait_for_socket, to_timeval}
use dlms_transport.Tcp.Stream.{TcpStreamTransport, close_stream, peer_closed, received, read_some}

abbrev pub is_connection_closed : Status → Bool
is_connection_closed connection_closed = true
is_connection_closed _ = false

-- What a read hands out, and what becomes of the object.
pub record Reads (output : Output) (t : TcpStreamTransport) (h : History)
    (r : Read × TcpStreamTransport) (k : History) : Type 0 where
  pub hands : Hands t.socket output.size h r.0 k
  pub progress : is_ok r.0.status ≡ true → 0 < output.size → 0 < r.0.bytes_read
  pub after : r.1 ≡ (
      if is_connection_closed r.0.status then record t { socket = invalid; is_open = false } else t)

Reads-nothing :
    {output : Output} {t : TcpStreamTransport} {h k : History} (s : Status)
    → is_ok s ≡ false
    → is_connection_closed s ≡ false
    → delivered t.socket k ≡ delivered t.socket h
    → Reads output t h (no_bytes s, t) k
Reads-nothing s e c d = record {
  hands = Hands-nothing s d;
  progress = λ f. absurd (ground arith);
  after = ground arith;
}

module _ (os : Os) where
  wait_for_socket-idle :
      (fd : ℤ) (t : TransportDuration) (h : History)
      → Ends
          (wait_for_socket os fd true t)
          h
          (λ s k. (delivered fd k ≡ delivered fd h) × (is_connection_closed s ≡ false))
  unfolding wait_for_socket
  wait_for_socket-idle fd t h =
      Ends-bind {P = λ s k. delivered fd k ≡ delivered fd h}
        (record { at = delivered-call_select os fd fd true (to_timeval t) h })
        λ s k p. Ends-return _ (p, ground arith)

  -- After a `recv` of nothing the object is closed.
  peer_closed-Reads :
      (output : Output) (t : TcpStreamTransport) (h k : History)
      → delivered t.socket k ≡ delivered t.socket h
      → Ends (peer_closed os t) k (Reads output t h)
  unfolding peer_closed close_stream
  peer_closed-Reads output t h k d =
      Ends-bind
        {P = λ r l.
          (r.1 ≡ record t { socket = invalid; is_open = false })
          × (delivered t.socket l ≡ delivered t.socket h)}
        (Ends-then {P = λ u l. delivered t.socket l ≡ delivered t.socket h}
          (Ends-if (t.socket ==ℤ invalid) (λ e. Ends-return tt d)
            (λ e. record { at = delivered-call_close t.socket t.socket k ∙ d }))
          λ l p. Ends-return _ (refl, p))
        λ r l p. Ends-return _ (record {
          hands = Hands-nothing connection_closed p.1;
          progress = λ f. absurd (ground arith);
          after = p.0;
        })

  received-Reads :
      (output : Output) (t : TcpStreamTransport) (answer : ℤ × Bytes) (h k l : History)
      → delivered t.socket k ≡ delivered t.socket h
      → Got t.socket output.size k answer l
      → Ends (received os t answer) l (Reads output t h)
  unfolding received
  received-Reads output t (pos (suc n), xs) h k l d got = Ends-return _ (record {
    hands = record {
      fits = (got.within (suc n) refl).0;
      counted = (got.within (suc n) refl).1;
      failure = λ f. absurd (ground arith);
      given = got.log ∙ ap (λ b. b ++ xs) d;
    };
    progress = λ f g. omega arith;
    after = refl;
  })
  received-Reads output t (pos zero, xs) h k l d got = peer_closed-Reads output t h l (
      got.log
      ∙ ap (◌++◌ (delivered t.socket k)) (length_zero xs (got.within 0 refl).1)
      ∙ append-nil _
      ∙ d)
  received-Reads output t (negsuc n, xs) h k l d got =
      Ends-bind {P = λ error m. delivered t.socket m ≡ delivered t.socket h}
        (unfold last_error in record { at = got.log ∙ d })
        λ error m p. Ends-return _ (
          Reads-nothing _ (refusal (is_would_block os error)).0
            (refusal (is_would_block os error)).1 p)
    where
      refusal :
          (b : Bool)
          → let s = if b then would_block else read_failed in
            (is_ok s ≡ false) × (is_connection_closed s ≡ false)
      refusal true = (refl, refl)
      refusal false = (refl, refl)

-- `ReadSome` of the TCP client with a buffer whose size fits an `int`, over a POSIX system, in every
-- state and on every branch: `bytesRead` is the number of bytes handed out and is within the buffer,
-- it is zero unless the status is `Ok`, and not zero with `Ok` if the buffer has room; the socket has
-- given up exactly the bytes handed out; and the object is closed if the status is
-- `ConnectionClosed`, and stays as it was with every other status.
pub read_some-Reads :
    (os : Os)
    → IsPosix os
    → (output : Output) (t : TcpStreamTransport) (h : History) → output.size < 2 ^ 31
    → let r = read_some os output t h in Reads output t h r.0 r.1
read_some-Reads os posix output t h short = ended.at
  where
    ended : Ends (read_some os output t) h (Reads output t h)
    ended =
        unfold read_some in
        Ends-if (not t.is_open) (λ e. Ends-return _ (Reads-nothing _ refl refl refl))
          λ e.
            Ends-if (bad_output output) (λ e. Ends-return _ (Reads-nothing _ refl refl refl))
              λ e.
                Ends-if (output.size == 0)
                  (λ f. Ends-return _ record {
                    hands = Hands-nothing ok refl;
                    progress = λ g room. absurd (ground arith);
                    after = refl;
                  })
                  λ f.
                    Ends-bind (wait_for_socket-idle os t.socket t.options.read_timeout h)
                      λ waited k p.
                        Ends-if (not (is_ok waited))
                          (λ g. Ends-return _ (Reads-nothing waited (ground arith) p.1 p.0))
                          λ g.
                            Ends-bind (recv-Got os posix t.socket output.size k short)
                              λ answer l got. received-Reads os output t answer h k l p.0 got
