-- ===== src/Serial/Reading.antt =====
-- `ReadSome` of the serial transport: what it hands out.
use dlms_transport.Prelude.{
  ℕ, ℤ, pos, negsuc, ◌≡◌, refl, ap, ◌∙◌, true, not, ◌++◌, ◌==◌, is_negative, if◌then◌else◌, to_size,
  arith,
}
use dlms_transport.Status.{ok, would_block, read_failed, is_ok}
use dlms_transport.Buffer.{Bytes, Output, bad_output, no_bytes}
use dlms_transport.Timer.{TransportDuration}
use dlms_transport.Os.{
  Os, History, IsPosix, ◌>>=◌, return, delivered, delivered-call_select, last_error, Ends,
  Ends-return, Ends-bind, Ends-if, Hands, Hands-nothing, Got, read-Got,
}
use dlms_transport.Tcp.Socket.{wait_for_socket, to_timeval}
use dlms_transport.Serial.Port.{SerialTransport, is_would_block, native_read, read_some}

module _ (os : Os) (posix : IsPosix os) (fd : ℤ) where
  wait_for_socket-idle :
      (t : TransportDuration) (h : History)
      → Ends (wait_for_socket os fd true t) h (λ s k. delivered fd k ≡ delivered fd h)
  unfolding wait_for_socket
  wait_for_socket-idle t h =
      Ends-bind {P = λ s k. delivered fd k ≡ delivered fd h}
        (record { at = delivered-call_select os fd fd true (to_timeval t) h })
        λ s k p. Ends-return _ p

  answered-Hands :
      (size : ℕ) (answer : ℤ × Bytes) (h k l : History)
      → delivered fd k ≡ delivered fd h
      → Got fd size k answer l
      → Ends
          (if not (is_negative answer.0)
            then return (record { status = ok; bytes_read = to_size answer.0; output = answer.1 })
            else last_error os >>= λ error.
                return (no_bytes (if is_would_block os error then would_block else read_failed)))
          l
          (Hands fd size h)
  answered-Hands size (pos n, xs) h k l e got = Ends-return _ (record {
    fits = (got.within n refl).0;
    counted = (got.within n refl).1;
    failure = λ f. absurd (ground arith);
    given = got.log ∙ ap (λ b. b ++ xs) e;
  })
  answered-Hands size (negsuc n, xs) h k l e got =
      Ends-bind {P = λ error m. delivered fd m ≡ delivered fd h}
        (unfold last_error in record { at = got.log ∙ e })
        λ error m p. Ends-return _ (Hands-nothing _ p)

  native_read-Hands :
      (size : ℕ) (t : TransportDuration) (h : History)
      → Ends (native_read os fd size t) h (Hands fd size h)
  unfolding native_read
  native_read-Hands size t h = Ends-bind (wait_for_socket-idle t h) λ waited k p.
      Ends-if (not (is_ok waited)) (λ e. Ends-return _ (Hands-nothing _ p))
        λ e.
          Ends-bind (read-Got os posix fd size k)
            λ answer l got. answered-Hands size answer h k l p got

-- `ReadSome` of the serial transport, over a POSIX system, in every state, on every branch and for
-- every size of the buffer: `bytesRead` is the number of bytes handed out and is within the buffer,
-- it is zero unless the status is `Ok`, and the device has given up exactly the bytes handed out.
pub serial_read_some-Hands :
    (os : Os)
    → IsPosix os
    → (output : Output) (t : SerialTransport) (h : History)
    → let r = read_some os output t h in Hands t.handle output.size h r.0 r.1
serial_read_some-Hands os posix output t h = ended.at
  where
    ended : Ends (read_some os output t) h (Hands t.handle output.size h)
    ended =
        unfold read_some in
        Ends-if (not t.is_open) (λ e. Ends-return _ (Hands-nothing _ refl))
          λ e.
            Ends-if (bad_output output) (λ e. Ends-return _ (Hands-nothing _ refl))
              λ e.
                Ends-if (output.size == 0) (λ f. Ends-return _ (Hands-nothing _ refl))
                  (λ f. native_read-Hands os posix t.handle output.size t.options.read_timeout h)
