-- ===== src/Os/Reading.antt =====
-- What a read hands out of what the system gives for a descriptor.
use dlms_transport.Prelude.{
  ℕ, ℤ, pos, ◌^◌, ◌≤◌, ◌<◌, ◌≡◌, refl, sym, ◌∙◌, false, ◌++◌, length, append-nil, if◌then◌else◌,
  is_negative, to_int, to_size, to_size-to_int, arith,
}
use dlms_transport.Status.{Status, is_ok}
use dlms_transport.Buffer.{Bytes, Read, no_bytes}
use dlms_transport.Os.Events.{Os, History}
use dlms_transport.Os.Calls.{call_recv, call_read}
use dlms_transport.Os.Posix.{IsPosix}
use dlms_transport.Os.Traffic.{delivered, delivered-call_recv, delivered-call_read}
use dlms_transport.Os.Outcome.{Ends}

-- What a read hands out: it fits the buffer and `bytesRead` is its length, only `Ok` comes
-- with bytes, and the socket has given exactly these.
pub record Hands (fd : ℤ) (size : ℕ) (h : History) (r : Read) (k : History) : Type 0 where
  pub fits : r.bytes_read ≤ size
  pub counted : length r.output ≡ r.bytes_read
  pub failure : is_ok r.status ≡ false → r.bytes_read ≡ 0
  pub given : delivered fd k ≡ delivered fd h ++ r.output

pub Hands-nothing :
    {fd : ℤ} {size : ℕ} {h k : History} (s : Status)
    → delivered fd k ≡ delivered fd h
    → Hands fd size h (no_bytes s) k
Hands-nothing s e = record {
  fits = omega arith;
  counted = refl;
  failure = λ f. refl;
  given = e ∙ sym (append-nil _);
}

-- A `recv` with the size of the buffer.
pub record Got (fd : ℤ) (size : ℕ) (h : History) (answer : ℤ × Bytes) (k : History) : Type 0 where
  pub within : (n : ℕ) → answer.0 ≡ pos n → (n ≤ size) × (length answer.1 ≡ n)
  pub log :
      delivered fd k ≡ (if is_negative answer.0 then delivered fd h else delivered fd h ++ answer.1)

module _ (os : Os) (posix : IsPosix os) where
  pub recv-Got :
      (fd : ℤ) (size : ℕ) (h : History)
      → size < 2 ^ 31
      → Ends (call_recv os fd (to_size (to_int size))) h (Got fd size h)
  recv-Got fd size h short = record {
    at = record {
      within = λ n e.
          let b = bound n e in ((let s = to_size-to_int size short in omega (arith, s, b.0)), b.1);
      log = delivered-call_recv os fd _ h;
    };
  }
    where
      left : ℕ
      left = to_size (to_int size)

      bound :
          (n : ℕ)
          → (call_recv os fd left h).0.0 ≡ pos n
          → (n ≤ left) × (length (call_recv os fd left h).0.1 ≡ n)
      bound n e = unfold call_recv in posix.recv_bound h fd left n e

  pub read-Got : (fd : ℤ) (size : ℕ) (h : History) → Ends (call_read os fd size) h (Got fd size h)
  read-Got fd size h = record {
    at = record { within = bound; log = delivered-call_read os fd size h };
  }
    where
      bound :
          (n : ℕ)
          → (call_read os fd size h).0.0 ≡ pos n
          → (n ≤ size) × (length (call_read os fd size h).0.1 ≡ n)
      bound n e = unfold call_read in posix.read_bound h fd size n e
