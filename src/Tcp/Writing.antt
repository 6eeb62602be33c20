-- ===== src/Tcp/Writing.antt =====
-- `WriteAll` of the TCP client: its loop ends, and what the system has then taken over.
use dlms_transport.Prelude.{
  ℕ, ℤ, pos, zero, suc, ◌+◌, ◌-◌, ◌^◌, ◌≤◌, ◌<◌, ◌≡◌, refl, ap, Bool, true, false, not, ◌++◌,
  length, take, drop, to_int, to_size, to_size-to_int, Option, arith,
}
use dlms_transport.Status.{Status}
use dlms_transport.Buffer.{Bytes, Input, contents, bad_input}
use dlms_transport.Timer.{TransportDuration}
use dlms_transport.Os.{
  Os, Io, History, IsPosix, IsPatient, accepted, accepted-call_send, accepted-call_select,
  call_send, Ends, Ends-return, Ends-bind, Ends-if,
}
use dlms_transport.Transfer.Loop.{transfer_round, transfer_loop}
use dlms_transport.Transfer.Delivery.{Verdict, Delivers, Idle, Sent, transfer_loop-Delivers}
use dlms_transport.Tcp.Socket.{is_would_block, wait_for_socket, to_timeval}
use dlms_transport.Tcp.Stream.{TcpStreamTransport, write_loop, write_all}

-- A `send` with the size cast to `int`.
abbrev pub send_part : Os → ℤ → Bytes → ℕ → Io ℤ
send_part os fd xs size = call_send os fd xs (to_size (to_int size))

-- The loop of `WriteAll` over the actions on a socket.
abbrev pub socket_loop : Os → ℤ → TransportDuration → Bytes → ℕ → ℕ → Io (Option Status)
socket_loop os fd t xs =
    transfer_loop os (wait_for_socket os fd false t) (send_part os fd) (is_would_block os) xs

pub write_loop-socket_loop :
    (os : Os) (fd : ℤ) (t : TransportDuration) (xs : Bytes) (fuel : ℕ)
    → write_loop os fd t xs fuel ≡ socket_loop os fd t xs fuel
unfolding write_loop transfer_loop
write_loop-socket_loop os fd t xs zero = refl
write_loop-socket_loop os fd t xs (suc fuel) =
    ap (transfer_round os (wait_for_socket os fd false t) (send_part os fd) (is_would_block os) xs)
      (write_loop-socket_loop os fd t xs fuel)

module _ (os : Os) (patience : History → ℕ) (patient : IsPatient os patience) (fd : ℤ) where
  pub wait_for_socket-Idle :
      (r : Bool) (t : TransportDuration) (h : History)
      → Ends (wait_for_socket os fd r t) h (λ s k. Idle patience fd h k)
  unfolding wait_for_socket
  wait_for_socket-Idle r t h =
      Ends-bind {P = λ s k. Idle patience fd h k}
        (record {
          at = (
            accepted-call_select os fd fd r (to_timeval t) h,
            patient.select_patience h fd r (to_timeval t),
          );
        })
        λ s k p. Ends-return _ p

  send_part-Sent :
      (xs : Bytes) (done : ℕ) (h : History)
      → IsPosix os
      → length xs < 2 ^ 31
      → done ≤ length xs
      → Ends (send_part os fd (drop done xs) (length xs - done)) h (Sent patience fd xs done h)
  send_part-Sent xs done h posix short d = record {
    at = record {
      front = accepted-call_send os fd _ _ h;
      within = λ n e. omega (arith, size, bound n e);
      patience_left = patient.send_patience h fd _ _;
      refused = patient.send_refused h fd _ _;
    };
  }
    where
      left : ℕ
      left = to_size (to_int (length xs - done))

      size : left ≡ length xs - done
      size = to_size-to_int (length xs - done) (omega arith)

      bound : (n : ℕ) → (call_send os fd (drop done xs) left h).0 ≡ pos n → n ≤ left
      bound n e = unfold call_send in posix.send_bound h fd (drop done xs) left n e

  pub write_loop-Delivers :
      (t : TransportDuration) (xs : Bytes) (fuel done : ℕ) (h : History)
      → IsPosix os
      → length xs < 2 ^ 31
      → done ≤ length xs
      → length xs - done + patience h < fuel
      → Ends (write_loop os fd t xs fuel done) h (Delivers fd xs done h)
  write_loop-Delivers t xs fuel done h posix short d f =
      rw (write_loop-socket_loop os fd t xs fuel) (
        transfer_loop-Delivers patience fd os (wait_for_socket os fd false t) (send_part os fd)
          (is_would_block os) xs (wait_for_socket-Idle false t)
          (λ done h d. send_part-Sent xs done h posix short d) fuel done h d f)

-- `WriteAll` on an open stream, of an input that is no null pointer with a size and that fits an
-- `int`, over a POSIX system that does not put a writer off for ever: given fuel for the input and the system's patience, it ends; the object
-- stays as it was; the system has taken over a front part of the input, in order and once, for the
-- socket; the status is `Ok` exactly for the whole input, and `Timeout` or `WriteFailed` for less.
pub write_all_delivers :
    (os : Os) (patience : History → ℕ)
    → IsPosix os
    → IsPatient os patience
    → (fuel : ℕ) (input : Input) (t : TcpStreamTransport) (h : History) → t.is_open ≡ true
    → bad_input input ≡ false
    → length (contents input) < 2 ^ 31
    → length (contents input) + patience h < fuel
    → let r = write_all os fuel input t h in
      (r.0.1 ≡ t)
      × (n : ℕ) × Verdict r.0.0 n (length (contents input))
      × (accepted t.socket r.1 ≡ accepted t.socket h ++ take n (contents input))
write_all_delivers os patience posix patient fuel input t h open_before good short enough = ended.at
  where
    ended : Ends (write_all os fuel input t) h λ r k.
        (r.1 ≡ t)
        × (n : ℕ) × Verdict r.0 n (length (contents input))
        × (accepted t.socket k ≡ accepted t.socket h ++ take n (contents input))
    ended =
        unfold write_all in
        Ends-if (not t.is_open) (λ e. absurd (ground arith))
          λ e.
            Ends-if (bad_input input) (λ f. absurd (ground arith))
              λ f.
                Ends-bind
                  (write_loop-Delivers os patience patient t.socket t.options.write_timeout
                    (contents input) fuel 0 h posix short (omega arith) (omega arith))
                  λ status k d. Ends-return _ (
                    refl,
                    d.count,
                    (let z : 0 + d.count ≡ d.count = omega arith in rw z at d.verdict),
                    d.front,
                  )
