-- ===== src/Tls/Unsupported.antt =====
-- The TLS stream with the backend that supports nothing.
use dlms_transport.Prelude.{
  ◌≡◌, refl, false, not, ◌&&◌, if_cases, List, [], ◌∷◌, Option, none, some, arith,
}
use dlms_transport.Status.{Status, not_open, is_ok, is_already_open}
use dlms_transport.Buffer.{Input, Output, no_bytes}
use dlms_transport.ByteStream.{ByteStream}
use dlms_transport.Tls.Stream.{
  TlsStreamTransport, TlsStreamTransportOptions, TlsStreamBackend, Outcome, unsupported_backend,
  new_stream, has_valid_configuration, shaken, connect, open_stream, close_stream, read_some,
  write_all,
}
use dlms_transport.Tls.Session.{
  Call, opens, closes, reads, writes, Point, after_open, after_transfer, step, run,
}
use dlms_transport.Tls.Closing.{SoundPoint, run-Sound}

module _ {W : Type 0} where
  -- The object is closed, and its backend is the one that supports nothing.
  record Inert (t : TlsStreamTransport W) : Type 0 where
    backend : t.backend ≡ some unsupported_backend
    closed : t.is_open ≡ false

  abbrev InertPoint : Point W → Type 0
  InertPoint none = Unit {0}
  InertPoint (some p) = Inert p.0

  connect-Inert :
      (t : TlsStreamTransport W) (lower : Option (ByteStream W)) (w : W)
      → Inert t
      → InertPoint (after_open (connect t lower (some unsupported_backend) w))
  unfolding connect shaken
  connect-Inert t none w i = tt
  connect-Inert t (some lower) w i =
      if_cases {A = Outcome W} (λ r. InertPoint (after_open r))
        (not (is_ok (lower.open_stream w).0) && not (is_already_open (lower.open_stream w).0))
        {x = some ((lower.open_stream w).0, t, (lower.open_stream w).1)} (λ e. i) (λ e. i)

  connect-Inert_at :
      (t : TlsStreamTransport W) (backend : Option (TlsStreamBackend W)) (w : W)
      → backend ≡ some unsupported_backend
      → Inert t
      → InertPoint (after_open (connect t t.lower backend w))
  connect-Inert_at t backend w e i = rw e (connect-Inert t t.lower w i)

  open_stream-Inert :
      (t : TlsStreamTransport W) (w : W) → Inert t → InertPoint (after_open (open_stream t w))
  unfolding open_stream
  open_stream-Inert t w i =
      if_cases {A = Outcome W} (λ r. InertPoint (after_open r)) t.is_open (λ e. i)
        λ e.
          if_cases {A = Outcome W} (λ r. InertPoint (after_open r))
            (not (has_valid_configuration t)) (λ f. i)
            (λ f. connect-Inert_at t t.backend w i.backend i)

  close_stream-Inert : (t : TlsStreamTransport W) (w : W) → Inert t → Inert (close_stream t w).1
  unfolding close_stream
  close_stream-Inert t w i =
      if_cases {A = Status × TlsStreamTransport W × W} (λ r. Inert r.1) (not t.is_open) (λ e. i)
        (λ e. record { backend = i.backend; closed = refl })

  transfer-Inert :
      {A : Type 0} (t : TlsStreamTransport W) (r : Option (A × W))
      → Inert t
      → InertPoint (after_transfer t r)
  transfer-Inert t none i = tt
  transfer-Inert t (some r) i = i

  step-Inert : (c : Call) (t : TlsStreamTransport W) (w : W) → Inert t → InertPoint (step c t w)
  unfolding step
  step-Inert opens t w i = open_stream-Inert t w i
  step-Inert closes t w i = close_stream-Inert t w i
  step-Inert (reads output) t w i = transfer-Inert t _ i
  step-Inert (writes input) t w i = transfer-Inert t _ i

  run-Inert : (cs : List Call) (p : Point W) → InertPoint p → InertPoint (run cs p)
  unfolding run
  run-Inert cs none i = tt
  run-Inert [] (some p) i = i
  run-Inert (c ∷ cs) (some p) i = run-Inert cs (step c p.0 p.1) (step-Inert c p.0 p.1 i)

  -- After any calls, a transfer is refused, and nothing reaches the lower stream.
  abbrev pub Refuses : Output → Input → Point W → Type 0
  Refuses output input none = ⊥
  Refuses output input (some p) =
      (read_some p.0 output p.1 ≡ some (no_bytes not_open, p.1))
      × (write_all p.0 input p.1 ≡ some (not_open, p.1))

  -- A `TlsStreamTransport` whose backend is `UnsupportedTlsStreamBackend` never passes data in the
  -- clear: after any sequence of calls, over any lower stream, a `ReadSome` and a `WriteAll` are
  -- refused with `NotOpen` and do nothing to the lower stream.
  pub unsupported-Refuses :
      (lower : Option (ByteStream W)) (options : TlsStreamTransportOptions) (cs : List Call) (w : W)
      (output : Output) (input : Input)
      → Refuses output input
          (run cs (some (new_stream lower (some unsupported_backend) options, w)))
  unfolding read_some write_all
  unsupported-Refuses lower options cs w output input =
      ended (run cs start) (run-Inert cs start record { backend = refl; closed = refl }) (
        run-Sound lower (some unsupported_backend) cs start
          record { same_lower = refl; same_backend = refl; complete = λ e. absurd (ground arith) })
    where
      start : Point W
      start = some (new_stream lower (some unsupported_backend) options, w)

      ended :
          (p : Point W)
          → InertPoint p
          → SoundPoint lower (some unsupported_backend) p
          → Refuses output input p
      ended none i s = s
      ended (some p) i s = (ground (arith, i.closed), ground (arith, i.closed))
