-- ===== src/Serial/Interface.antt =====
-- `SerialTransport` as an `IByteStream`.
use dlms_transport.Prelude.{
  ℕ, ◌==ℤ◌, ◌≡◌, refl, ap, ◌∙◌, true, false, not, ◌++◌, some, Bool-cases, inl, inr, if_cases, arith,
}
use dlms_transport.Status.{
  Status, already_open, not_open, invalid_argument, open_failed, is_ok, is_already_open,
}
use dlms_transport.Buffer.{Input, contents, bad_input, Output, bad_output, no_bytes}
use dlms_transport.ByteStream.{ByteStream, IsByteStream, OpensAsPromised, ClosesWithPeer, Carries}
use dlms_transport.Os.{
  Os, History, IsPosix, IsPatient, accepted, invalid, call_open_device, Ends, Ends-return,
  Ends-bind, Ends-any, Ends-if, ◌>>◌, return,
}
use dlms_transport.Transfer.Ending.{ended_status, write_fuel, delivered_whole}
use dlms_transport.Serial.Port.{
  SerialTransport, options_are_valid, open_port, close_port, is_port_open, read_some, write_all,
}
use dlms_transport.Serial.Promises.{Valid, open_port_invalid, open_port-Valid, read_some-open}
use dlms_transport.Tcp.Reading.{is_connection_closed}
use dlms_transport.Serial.Reading.{serial_read_some-Hands}
use dlms_transport.Serial.Writing.{serial_write_all_delivers}

-- `ReadSome` and `WriteAll` do not change the object.
abbrev pub serial_port : (os : Os) → (History → ℕ) → ByteStream (SerialTransport × History)
serial_port os patience = record {
  open_stream = λ w. let r = open_port os w.0 w.1 in (r.0.0, (r.0.1, r.1));
  close_stream = λ w. let r = close_port os w.0 w.1 in (r.0.0, (r.0.1, r.1));
  is_open = λ w. is_port_open w.0;
  read_some = λ output w. let r = read_some os output w.0 w.1 in (r.0, (w.0, r.1));
  write_all = λ input w.
      let r = write_all os (write_fuel patience input w.1) input w.0 w.1 in
      (ended_status r.0, (w.0, r.1));
}

-- It is open after `Ok`, and closed unless it was open before.
abbrev OpensOk : SerialTransport → Status × SerialTransport → Type 0
OpensOk t r =
    (is_ok r.0 ≡ true → r.1.is_open ≡ true)
    × (is_ok r.0 ≡ false → is_already_open r.0 ≡ false → r.1.is_open ≡ false)

module _ (os : Os) where
  open_port-OpensOk :
      (t : SerialTransport) (h : History) → Ends (open_port os t) h (λ r k. OpensOk t r)
  unfolding open_port
  open_port-OpensOk t h =
      Ends-if t.is_open
        (λ e. Ends-return _ ((λ f. absurd (ground arith)), λ f g. absurd (ground arith)))
        λ closed.
          Ends-if (not (options_are_valid t.options))
            (λ e. Ends-return _ ((λ f. absurd (ground arith)), λ f g. closed))
            λ e. Ends-bind (Ends-any (call_open_device os t.options.device_name) h) λ handle k u.
              Ends-return _ (
                if_cases (OpensOk t) (handle ==ℤ invalid)
                  (λ f. ((λ g. absurd (ground arith)), λ g i. closed))
                  (λ f. ((λ g. refl), λ g i. absurd (ground arith))))

  open_port_twice :
      (t : SerialTransport) (h : History)
      → t.is_open ≡ true
      → open_port os t h ≡ ((already_open, t), h)
  unfolding open_port return
  open_port_twice t h e = rw e refl

  read_not_open :
      (output : Output) (t : SerialTransport) (h : History)
      → t.is_open ≡ false
      → read_some os output t h ≡ (no_bytes not_open, h)
  unfolding read_some return
  read_not_open output t h e = rw e refl

  read_null :
      (output : Output) (t : SerialTransport) (h : History)
      → t.is_open ≡ true
      → bad_output output ≡ true
      → read_some os output t h ≡ (no_bytes invalid_argument, h)
  unfolding read_some return
  read_null output t h e f = rw (e, f) refl

  write_not_open :
      (fuel : ℕ) (input : Input) (t : SerialTransport) (h : History)
      → t.is_open ≡ false
      → write_all os fuel input t h ≡ (some not_open, h)
  unfolding write_all return
  write_not_open fuel input t h e = rw e refl

  write_null :
      (fuel : ℕ) (input : Input) (t : SerialTransport) (h : History)
      → t.is_open ≡ true
      → bad_input input ≡ true
      → write_all os fuel input t h ≡ (some invalid_argument, h)
  unfolding write_all return
  write_null fuel input t h e f = rw (e, f) refl

  write_exact :
      (patience : History → ℕ)
      → IsPosix os
      → IsPatient os patience
      → (input : Input) (t : SerialTransport) (h : History)
      → let r = write_all os (write_fuel patience input h) input t h in
        is_ok (ended_status r.0) ≡ true
        → accepted t.handle r.1 ≡ accepted t.handle h ++ contents input
  write_exact patience posix patient input t h e =
      let fuel = write_fuel patience input h in
      elim (Bool-cases t.is_open) [
        | inr closed ↦ absurd (
            ground
              (arith, ap (λ r. is_ok (ended_status r.0)) (write_not_open fuel input t h closed), e))
        | inl up ↦ elim (Bool-cases (bad_input input)) [
          | inl bad ↦ absurd (
              ground
                (arith, ap (λ r. is_ok (ended_status r.0)) (write_null fuel input t h up bad), e))
          | inr good ↦
              let d =
                serial_write_all_delivers os patience posix patient fuel input t h up good
                  (omega arith) in
              d.2 ∙ ap (◌++◌ (accepted t.handle h)) (delivered_whole _ d.0 (contents input) d.1 e)
        ]
      ]

-- Over a POSIX system that does not put a writer off for ever, `SerialTransport` keeps the contract of
-- `IByteStream`, for buffers of any size: an `Open` that is `Ok` leaves it open, a second `Open` is
-- AlreadyOpen and changes nothing, and one that fails leaves it closed; on a closed object without a
-- device name or a baud rate, or whose data bits are not five to eight, `Open` is InvalidArgument and
-- changes nothing, and with valid options it is `Ok` or OpenFailed; `Close` is `Ok` and leaves it
-- closed; a `ReadSome` that is ConnectionClosed would leave it closed; when it is closed `ReadSome` and `WriteAll` are NotOpen and change nothing; a null buffer
-- with a size is refused; a read is within the buffer and counts its bytes; and a `WriteAll` that is
-- `Ok` has handed exactly its input over to the device.
pub serial_port-IsByteStream :
    (os : Os) (patience : History → ℕ)
    → IsPosix os
    → IsPatient os patience
    → IsByteStream (serial_port os patience)
      × OpensAsPromised (serial_port os patience) (λ w. Valid w.0.options) (λ s. s ≡ open_failed)
      × ((limit : ℕ)
          → ClosesWithPeer (serial_port os patience) limit
            × Carries (serial_port os patience) (λ w. accepted w.0.handle w.1) limit)
unfolding close_port ◌>>◌ return
serial_port-IsByteStream os patience posix patient = (
  record {
    open_ok = λ w e. (open_port-OpensOk os w.0 w.1).at.0 e;
    open_twice = λ w e. ap (λ r. (r.0.0, (r.0.1, r.1))) (open_port_twice os w.0 w.1 e);
    open_failure = λ w e f. (open_port-OpensOk os w.0 w.1).at.1 e f;
    close_ok = λ w. refl;
    close_closes = λ w. refl;
    read_not_open = λ output w e. ap (λ r. (r.0, (w.0, r.1))) (read_not_open os output w.0 w.1 e);
    read_null = λ output w e f. ap (λ r. (r.0, (w.0, r.1))) (read_null os output w.0 w.1 e f);
    write_not_open =
        λ input w e. ap (λ r. (ended_status r.0, (w.0, r.1))) (write_not_open os _ input w.0 w.1 e);
    write_null =
        λ input w e f. ap (λ r. (ended_status r.0, (w.0, r.1))) (write_null os _ input w.0 w.1 e f);
  },
  record {
    open_invalid = λ w e bad. ap (λ r. (r.0.0, (r.0.1, r.1))) (open_port_invalid os w.0 w.1 e bad);
    open_valid = λ w. open_port-Valid os w.0 w.1;
  },
  λ limit. (
    record {
      peer_close = λ output w short e.
          let o = read_some-open os output w.0 w.1 in
          absurd (ground (arith, o, ap is_connection_closed e));
    },
    record {
      read_fits = λ output w short.
          let p = serial_read_some-Hands os posix output w.0 w.1 in (p.fits, p.counted);
      write_exact = λ input w short e. write_exact os patience posix patient input w.0 w.1 e;
    },
  ),
)
