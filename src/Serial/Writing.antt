-- ===== src/Serial/Writing.antt =====
-- `WriteAll` of the serial transport: its loop ends, and what the system has then taken over.
use dlms_transport.Prelude.{
  ℕ, ℤ, pos, zero, suc, ◌+◌, ◌-◌, ◌≤◌, ◌<◌, ◌≡◌, refl, sym, ap, true, false, not, ◌++◌, [], ◌∷◌,
  ◌==◌, length, take, drop, append-nil, Option, some, arith,
}
use dlms_transport.Status.{Status, ok}
use dlms_transport.Buffer.{Bytes, Input, contents, bad_input, input_size}
use dlms_transport.Timer.{TransportDuration}
use dlms_transport.Os.{
  Os, Io, History, IsPosix, IsPatient, accepted, accepted-call_write, call_write, Ends, Ends-return,
  Ends-if, Ends-weaken,
}
use dlms_transport.Transfer.Loop.{transfer_round, transfer_loop}
use dlms_transport.Transfer.Delivery.{Verdict, Delivers, Sent, transfer_loop-Delivers}
use dlms_transport.Tcp.Socket.{wait_for_socket}
use dlms_transport.Tcp.Writing.{wait_for_socket-Idle}
use dlms_transport.Serial.Port.{SerialTransport, is_would_block, native_write_all, write_all}

-- The loop of `NativeWriteAll` over the actions on a device.
abbrev pub device_loop : Os → ℤ → TransportDuration → Bytes → ℕ → ℕ → Io (Option Status)
device_loop os fd t xs =
    transfer_loop os (wait_for_socket os fd false t) (call_write os fd) (is_would_block os) xs

pub native_write_all-device_loop :
    (os : Os) (fd : ℤ) (t : TransportDuration) (xs : Bytes) (fuel : ℕ)
    → native_write_all os fd t xs fuel ≡ device_loop os fd t xs fuel
unfolding native_write_all transfer_loop
native_write_all-device_loop os fd t xs zero = refl
native_write_all-device_loop os fd t xs (suc fuel) =
    ap (transfer_round os (wait_for_socket os fd false t) (call_write os fd) (is_would_block os) xs)
      (native_write_all-device_loop os fd t xs fuel)

module _ (os : Os) (patience : History → ℕ) (patient : IsPatient os patience) (fd : ℤ) where
  call_write-Sent :
      (xs : Bytes) (done : ℕ) (h : History)
      → IsPosix os
      → done ≤ length xs
      → Ends (call_write os fd (drop done xs) (length xs - done)) h (Sent patience fd xs done h)
  call_write-Sent xs done h posix d = record {
    at = record {
      front = accepted-call_write os fd _ _ h;
      within = λ n e. omega (arith, bound n e);
      patience_left = patient.write_patience h fd _ _;
      refused = patient.write_refused h fd _ _;
    };
  }
    where
      bound :
          (n : ℕ)
          → (call_write os fd (drop done xs) (length xs - done) h).0 ≡ pos n
          → n ≤ length xs - done
      bound n e = unfold call_write in posix.write_bound h fd (drop done xs) (length xs - done) n e

  pub native_write_all-Delivers :
      (t : TransportDuration) (xs : Bytes) (fuel done : ℕ) (h : History)
      → IsPosix os
      → done ≤ length xs
      → length xs - done + patience h < fuel
      → Ends (native_write_all os fd t xs fuel done) h (Delivers fd xs done h)
  native_write_all-Delivers t xs fuel done h posix d f =
      rw (native_write_all-device_loop os fd t xs fuel) (
        transfer_loop-Delivers patience fd os (wait_for_socket os fd false t) (call_write os fd)
          (is_would_block os) xs (wait_for_socket-Idle os patience patient fd false t)
          (λ done h d. call_write-Sent xs done h posix d) fuel done h d f)

-- `WriteAll` on an open device, of an input that is no null pointer with a size, over a POSIX system
-- that does not put a writer off for ever: given fuel for the input and the system's patience, it
-- ends; the system has taken over a front part of the input, in order and once, for the device; the
-- status is `Ok` exactly for the whole input, and `Timeout` or `WriteFailed` for less.
pub serial_write_all_delivers :
    (os : Os) (patience : History → ℕ)
    → IsPosix os
    → IsPatient os patience
    → (fuel : ℕ) (input : Input) (t : SerialTransport) (h : History) → t.is_open ≡ true
    → bad_input input ≡ false
    → length (contents input) + patience h < fuel
    → let r = write_all os fuel input t h in
      (n : ℕ) × Verdict r.0 n (length (contents input))
      × (accepted t.handle r.1 ≡ accepted t.handle h ++ take n (contents input))
serial_write_all_delivers os patience posix patient fuel input t h up good enough = ended.at
  where
    nothing : (i : Input) → (input_size i == 0) ≡ true → contents i ≡ []
    nothing (Input.null n) e = refl
    nothing (Input.bytes []) e = refl
    nothing (Input.bytes (x ∷ xs)) e = absurd (ground arith)

    empty :
        (xs : Bytes)
        → xs ≡ []
        → (n : ℕ) × Verdict (some ok) n (length xs)
          × (accepted t.handle h ≡ accepted t.handle h ++ take n xs)
    empty xs e = (0, rw e refl, sym (append-nil _))

    ended : Ends (write_all os fuel input t) h λ r k.
        (n : ℕ) × Verdict r n (length (contents input))
        × (accepted t.handle k ≡ accepted t.handle h ++ take n (contents input))
    ended =
        unfold write_all in
        Ends-if (not t.is_open) (λ e. absurd (ground arith))
          λ e.
            Ends-if (bad_input input) (λ f. absurd (ground arith))
              λ f.
                Ends-if (input_size input == 0)
                  (λ g. Ends-return _ (empty (contents input) (nothing input g)))
                  λ g.
                    Ends-weaken
                      (native_write_all-Delivers os patience patient t.handle
                        t.options.write_timeout (contents input) fuel 0 h posix (omega arith)
                        (omega arith))
                      λ r k d. (
                        d.count,
                        (let z : 0 + d.count ≡ d.count = omega arith in rw z at d.verdict),
                        d.front,
                      )
