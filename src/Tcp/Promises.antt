-- ===== src/Tcp/Promises.antt =====
-- `TcpStreamTransport`: how `Open` answers on a closed object.
use dlms_transport.Prelude.{
  ◌<◌, ◌≡◌, refl, false, length, is_empty, [], ◌∷◌, Bool-cases, inl, inr, ◌⊎◌, arith,
}
use dlms_transport.Status.{
  Status, ok, already_open, invalid_argument, timeout, open_failed, write_failed,
}
use dlms_transport.Buffer.{Bytes}
use dlms_transport.Os.{Os, History, return}
use dlms_transport.Tcp.Stream.{TcpStreamTransportOptions, TcpStreamTransport, open_stream}
use dlms_transport.Tcp.Opening.{bad_options, Opens, open_stream-Opens}

-- A host and a port.
abbrev pub Valid : TcpStreamTransportOptions → Type 0
Valid o = (0 < length o.host) × (0 < o.port)

-- The failures of the code. The header names only OpenFailed for them.
abbrev pub Failure : Status → Type 0
Failure s = (s ≡ open_failed) ⊎ ((s ≡ timeout) ⊎ (s ≡ write_failed))

length_positive : (xs : Bytes) → is_empty xs ≡ false → 0 < length xs
length_positive [] e = absurd (ground arith)
length_positive (x ∷ xs) e = omega arith

not_empty : (xs : Bytes) → 0 < length xs → is_empty xs ≡ false
not_empty [] e = absurd (omega arith)
not_empty (x ∷ xs) e = refl

valid : (t : TcpStreamTransport) → bad_options t ≡ false → Valid t.options
valid t e = (length_positive t.options.host (ground arith), ground arith)

good_options : (t : TcpStreamTransport) → Valid t.options → bad_options t ≡ false
good_options t v = let e = not_empty t.options.host v.0 in ground arith

Valid-Opens :
    (t : TcpStreamTransport) (r : Status × TcpStreamTransport)
    → t.is_open ≡ false
    → Valid t.options
    → Opens t r
    → (r.0 ≡ ok) ⊎ Failure r.0
Valid-Opens t (ok, after) e v p = inl refl
Valid-Opens t (already_open, after) e v p = absurd (ground (arith, p.0))
Valid-Opens t (invalid_argument, after) e v p = absurd (ground (arith, p.1, good_options t v))
Valid-Opens t (open_failed, after) e v p = inr (inl refl)
Valid-Opens t (timeout, after) e v p = inr (inr (inl refl))
Valid-Opens t (write_failed, after) e v p = inr (inr (inr refl))
Valid-Opens t (_, after) e v p = absurd p

module _ (os : Os) where
  pub open_stream_invalid :
      (t : TcpStreamTransport) (h : History)
      → t.is_open ≡ false
      → ¬ Valid t.options
      → open_stream os t h ≡ ((invalid_argument, t), h)
  unfolding open_stream return
  open_stream_invalid t h closed bad = elim (Bool-cases (bad_options t)) [
    | inr e ↦ absurd (bad (valid t e))
    | inl e ↦ rw (closed, e) refl
  ]

  pub open_stream-Valid :
      (t : TcpStreamTransport) (h : History)
      → t.is_open ≡ false
      → Valid t.options
      → let s = (open_stream os t h).0.0 in (s ≡ ok) ⊎ Failure s
  open_stream-Valid t h closed v = Valid-Opens t _ closed v (open_stream-Opens os t h)
