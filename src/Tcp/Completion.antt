-- ===== src/Tcp/Completion.antt =====
-- `WriteAll` of the TCP client on a system that is willing to write.
use dlms_transport.Prelude.{
  ℕ, ℤ, ◌+◌, ◌-◌, ◌^◌, ◌<◌, ◌≡◌, ap, ◌∙◌, true, false, not, ◌++◌, length, take_all, drop,
  is_positive, is_zero, to_size-to_int, some, arith,
}
use dlms_transport.Status.{ok, is_ok}
use dlms_transport.Buffer.{Bytes, Input, contents, bad_input}
use dlms_transport.Timer.{TransportDuration}
use dlms_transport.Os.{
  Os, History, IsPosix, IsPatient, IsWilling, accepted, call_send, call_select, Ends, Ends-return,
  Ends-bind, Ends-if,
}
use dlms_transport.Transfer.Completion.{Unfailed, Unfailed-all, transfer_loop-Unfailed}
use dlms_transport.Tcp.Socket.{is_would_block, wait_for_socket, to_timeval}
use dlms_transport.Tcp.Stream.{TcpStreamTransport, write_loop, write_all}
use dlms_transport.Tcp.Writing.{send_part, write_loop-socket_loop, write_all_delivers}

module _ (os : Os) (willing : IsWilling os) where
  wait_for_socket-ready :
      (fd : ℤ) (t : TransportDuration) (h : History)
      → Ends (wait_for_socket os fd false t) h (λ s k. is_ok s ≡ true)
  unfolding wait_for_socket call_select
  wait_for_socket-ready fd t h =
      Ends-bind {P = λ r k. is_positive r ≡ true}
        (record { at = willing.select_ready h fd false (to_timeval t) })
        λ r k p. Ends-return _ (ground arith)

  send_part-moves :
      (fd : ℤ) (xs : Bytes) (done : ℕ) (h : History)
      → length xs < 2 ^ 31
      → done < length xs
      → Ends
          (send_part os fd (drop done xs) (length xs - done))
          h
          (λ chunk k. is_zero chunk ≡ false)
  unfolding call_send
  send_part-moves fd xs done h short d = record {
    at =
        willing.send_moves h fd (drop done xs) _
          (let s = to_size-to_int (length xs - done) (omega arith) in omega (arith, s));
  }

  write_loop-Unfailed :
      (fd : ℤ) (t : TransportDuration) (xs : Bytes) (fuel : ℕ) (h : History)
      → length xs < 2 ^ 31
      → Ends (write_loop os fd t xs fuel 0) h (λ r k. Unfailed r)
  write_loop-Unfailed fd t xs fuel h short = rw (write_loop-socket_loop os fd t xs fuel) (
      transfer_loop-Unfailed os (wait_for_socket os fd false t) (send_part os fd)
        (is_would_block os) xs (wait_for_socket-ready fd t)
        (λ done h d. send_part-moves fd xs done h short d) (λ h. willing.refusal_is_would_block h)
        fuel 0 h)

  write_all-Unfailed :
      (fuel : ℕ) (input : Input) (t : TcpStreamTransport) (h : History)
      → t.is_open ≡ true
      → bad_input input ≡ false
      → length (contents input) < 2 ^ 31
      → Ends (write_all os fuel input t) h (λ r k. Unfailed r.0)
  unfolding write_all
  write_all-Unfailed fuel input t h up good short =
      Ends-if (not t.is_open) (λ e. absurd (ground arith))
        λ e.
          Ends-if (bad_input input) (λ f. absurd (ground arith))
            λ f.
              Ends-bind
                (write_loop-Unfailed t.socket t.options.write_timeout (contents input) fuel h short)
                λ status k p. Ends-return _ p

-- `WriteAll` on an open stream, of an input that is no null pointer with a size and that fits an
-- `int`, over a POSIX system that does not put a writer off for ever, given fuel for the input and
-- the system's patience: when every wait ends ready, no `send` of some bytes answers 0 and every
-- error is a would-block one, it returns `Ok`, and the system has taken over the whole input.
pub write_all_completes :
    (os : Os) (patience : History → ℕ)
    → IsPosix os
    → IsPatient os patience
    → IsWilling os
    → (fuel : ℕ) (input : Input) (t : TcpStreamTransport) (h : History) → t.is_open ≡ true
    → bad_input input ≡ false
    → length (contents input) < 2 ^ 31
    → length (contents input) + patience h < fuel
    → let r = write_all os fuel input t h in
      (r.0.0 ≡ some ok) × (accepted t.socket r.1 ≡ accepted t.socket h ++ contents input)
write_all_completes os patience posix patient willing fuel input t h up good short enough =
    let d = write_all_delivers os patience posix patient fuel input t h up good short enough in
    let q =
      Unfailed-all _ d.1 (length (contents input))
        (write_all-Unfailed os willing fuel input t h up good short).at d.2 in
    (
      q.0,
      d.3 ∙ ap (◌++◌ (accepted t.socket h)) (take_all d.1 (contents input) (omega (arith, q.1))),
    )
