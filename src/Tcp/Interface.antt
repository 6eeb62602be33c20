-- ===== src/Tcp/Interface.antt =====
-- `TcpStreamTransport` as an `IByteStream`.
use dlms_transport.Prelude.{
  ℕ, ◌^◌, ◌<◌, ◌≡◌, refl, ap, ◌∙◌, Bool, if◌then◌else◌, true, false, length, ◌++◌, some, Bool-cases,
  inl, inr, arith,
}
use dlms_transport.Status.{
  Status, ok, already_open, not_open, invalid_argument, timeout, open_failed, write_failed,
  connection_closed, is_ok, is_already_open,
}
use dlms_transport.Buffer.{Input, contents, bad_input, Output, bad_output, no_bytes}
use dlms_transport.ByteStream.{ByteStream, IsByteStream, OpensAsPromised, ClosesWithPeer, Carries}
use dlms_transport.Os.{Os, History, IsPosix, IsPatient, invalid, accepted, ◌>>◌, return}
use dlms_transport.Transfer.Ending.{ended_status, write_fuel, delivered_whole}
use dlms_transport.Tcp.Stream.{
  TcpStreamTransport, open_stream, close_stream, is_stream_open, read_some, write_all,
}
use dlms_transport.Tcp.Opening.{Opens, open_stream-Opens}
use dlms_transport.Tcp.Promises.{Valid, Failure, open_stream_invalid, open_stream-Valid}
use dlms_transport.Tcp.Reading.{read_some-Reads, is_connection_closed}
use dlms_transport.Tcp.Writing.{write_all_delivers}

module _ (os : Os) (patience : History → ℕ) where
  abbrev pub tcp_stream : ByteStream (TcpStreamTransport × History)
  tcp_stream = record {
    open_stream = λ w. let r = open_stream os w.0 w.1 in (r.0.0, (r.0.1, r.1));
    close_stream = λ w. let r = close_stream os w.0 w.1 in (r.0.0, (r.0.1, r.1));
    is_open = λ w. is_stream_open os w.0;
    read_some = λ output w. let r = read_some os output w.0 w.1 in (r.0.0, (r.0.1, r.1));
    write_all = λ input w.
        let r = write_all os (write_fuel patience input w.1) input w.0 w.1 in
        (ended_status r.0.0, (r.0.1, r.1));
  }

module _ (os : Os) where
  Opens-ok :
      (t : TcpStreamTransport) (r : Status × TcpStreamTransport)
      → Opens t r
      → is_ok r.0 ≡ true
      → r.1.is_open ≡ true
  Opens-ok t (ok, after) p e = ap (λ x. x.is_open) p.4
  Opens-ok t _ p e = absurd (ground arith)

  Opens-failure :
      (t : TcpStreamTransport) (r : Status × TcpStreamTransport)
      → Opens t r
      → is_ok r.0 ≡ false
      → is_already_open r.0 ≡ false
      → r.1.is_open ≡ false
  Opens-failure t (ok, after) p e f = absurd (ground arith)
  Opens-failure t (already_open, after) p e f = absurd (ground arith)
  Opens-failure t (invalid_argument, after) p e f = ap (λ x. x.is_open) p.2 ∙ p.0
  Opens-failure t (timeout, after) p e f = ap (λ x. x.is_open) p.2 ∙ p.0
  Opens-failure t (open_failed, after) p e f = ap (λ x. x.is_open) p.2 ∙ p.0
  Opens-failure t (write_failed, after) p e f = ap (λ x. x.is_open) p.2 ∙ p.0
  Opens-failure t (_, after) p e f = absurd p

  open_stream_twice :
      (t : TcpStreamTransport) (h : History)
      → t.is_open ≡ true
      → open_stream os t h ≡ ((already_open, t), h)
  unfolding open_stream return
  open_stream_twice t h e = rw e refl

  read_not_open :
      (output : Output) (t : TcpStreamTransport) (h : History)
      → t.is_open ≡ false
      → read_some os output t h ≡ ((no_bytes not_open, t), h)
  unfolding read_some return
  read_not_open output t h e = rw e refl

  read_null :
      (output : Output) (t : TcpStreamTransport) (h : History)
      → t.is_open ≡ true
      → bad_output output ≡ true
      → read_some os output t h ≡ ((no_bytes invalid_argument, t), h)
  unfolding read_some return
  read_null output t h e f = rw (e, f) refl

  write_not_open :
      (fuel : ℕ) (input : Input) (t : TcpStreamTransport) (h : History)
      → t.is_open ≡ false
      → write_all os fuel input t h ≡ ((some not_open, t), h)
  unfolding write_all return
  write_not_open fuel input t h e = rw e refl

  write_null :
      (fuel : ℕ) (input : Input) (t : TcpStreamTransport) (h : History)
      → t.is_open ≡ true
      → bad_input input ≡ true
      → write_all os fuel input t h ≡ ((some invalid_argument, t), h)
  unfolding write_all return
  write_null fuel input t h e f = rw (e, f) refl

  write_exact :
      (patience : History → ℕ)
      → IsPosix os
      → IsPatient os patience
      → (input : Input) (t : TcpStreamTransport) (h : History) → length (contents input) < 2 ^ 31
      → let r = write_all os (write_fuel patience input h) input t h in
        is_ok (ended_status r.0.0) ≡ true
        → accepted r.0.1.socket r.1 ≡ accepted t.socket h ++ contents input
  write_exact patience posix patient input t h short e = elim (Bool-cases t.is_open) [
    | inr closed ↦ absurd (
        ground (
          arith,
          ap (λ r. is_ok (ended_status r.0.0))
              (write_not_open (write_fuel patience input h) input t h closed),
          e,
        ))
    | inl up ↦ elim (Bool-cases (bad_input input)) [
      | inl bad ↦ absurd (
          ground (
            arith,
            ap (λ r. is_ok (ended_status r.0.0))
                (write_null (write_fuel patience input h) input t h up bad),
            e,
          ))
      | inr good ↦
          let d =
            write_all_delivers os patience posix patient (write_fuel patience input h) input t h up
              good short (omega arith) in
          ap (λ x. accepted x.socket (write_all os (write_fuel patience input h) input t h).1) d.0
          ∙ d.3
          ∙ ap (◌++◌ (accepted t.socket h)) (delivered_whole _ d.1 (contents input) d.2 e)
    ]
  ]

  closed_after :
      IsPosix os
      → (output : Output) (t : TcpStreamTransport) (h : History) → output.size < 2 ^ 31
      → let r = (read_some os output t h).0 in r.0.status ≡ connection_closed → r.1.is_open ≡ false
  closed_after posix output t h short e =
      let p = (read_some-Reads os posix output t h short).after in
      let c = ap is_connection_closed e in ap (λ x. x.is_open) p ∙ closed c
    where
      closed :
          {b : Bool}
          → b ≡ true
          → (if b then record t { socket = invalid; is_open = false } else t).is_open ≡ false
      closed {b} e = ground arith

-- Over a POSIX system that does not put a writer off for ever, and for buffers whose size fits an
-- `int`, `TcpStreamTransport` keeps the contract of `IByteStream`: an `Open` that is `Ok` leaves it
-- open, a second `Open` is AlreadyOpen and changes nothing, and one that fails leaves it closed;
-- on a closed object without host or port `Open` is InvalidArgument and changes nothing, and with both
-- it is `Ok`, OpenFailed, Timeout or WriteFailed, where the header promises only the first two; a
-- `ReadSome` that is ConnectionClosed leaves it closed; `Close` is `Ok` and leaves it closed; when it is closed `ReadSome` and `WriteAll` are NotOpen and
-- change nothing; a null buffer with a size is refused; a read is within the buffer and counts its
-- bytes; and a `WriteAll` that is `Ok` has handed exactly its input over to the socket.
pub tcp_stream-IsByteStream :
    (os : Os) (patience : History → ℕ)
    → IsPosix os
    → IsPatient os patience
    → IsByteStream (tcp_stream os patience)
      × OpensAsPromised (tcp_stream os patience) (λ w. Valid w.0.options) Failure
      × ClosesWithPeer (tcp_stream os patience) (2 ^ 31)
      × Carries (tcp_stream os patience) (λ w. accepted w.0.socket w.1) (2 ^ 31)
unfolding close_stream ◌>>◌ return
tcp_stream-IsByteStream os patience posix patient = (
  record {
    open_ok = λ w e. Opens-ok os w.0 _ (open_stream-Opens os w.0 w.1) e;
    open_twice = λ w e. ap (λ r. (r.0.0, (r.0.1, r.1))) (open_stream_twice os w.0 w.1 e);
    open_failure = λ w e f. Opens-failure os w.0 _ (open_stream-Opens os w.0 w.1) e f;
    close_ok = λ w. refl;
    close_closes = λ w. refl;
    read_not_open =
        λ output w e. ap (λ r. (r.0.0, (r.0.1, r.1))) (read_not_open os output w.0 w.1 e);
    read_null = λ output w e f. ap (λ r. (r.0.0, (r.0.1, r.1))) (read_null os output w.0 w.1 e f);
    write_not_open = λ input w e.
        ap (λ r. (ended_status r.0.0, (r.0.1, r.1))) (write_not_open os _ input w.0 w.1 e);
    write_null = λ input w e f.
        ap (λ r. (ended_status r.0.0, (r.0.1, r.1))) (write_null os _ input w.0 w.1 e f);
  },
  record {
    open_invalid =
        λ w e bad. ap (λ r. (r.0.0, (r.0.1, r.1))) (open_stream_invalid os w.0 w.1 e bad);
    open_valid = λ w. open_stream-Valid os w.0 w.1;
  },
  record { peer_close = λ output w short e. closed_after os posix output w.0 w.1 short e },
  record {
    read_fits = λ output w short.
        let p = (read_some-Reads os posix output w.0 w.1 short).hands in (p.fits, p.counted);
    write_exact = λ input w short e. write_exact os patience posix patient input w.0 w.1 short e;
  },
)
