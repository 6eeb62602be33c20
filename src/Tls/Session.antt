-- ===== src/Tls/Session.antt =====
-- Sequences of calls on one `TlsStreamTransport`, up to its destructor.
use dlms_transport.Prelude.{List, [], ◌∷◌, Option, none, some}
use dlms_transport.Buffer.{Input, Output}
use dlms_transport.ByteStream.{ByteStream}
use dlms_transport.Tls.Stream.{
  TlsStreamTransport, TlsStreamTransportOptions, TlsStreamBackend, new_stream, open_stream,
  close_stream, read_some, write_all,
}

pub data Call : Type 0 where
  opens closes : Call
  reads : Output → Call
  writes : Input → Call

-- The object and all other state, or the dereference of a null pointer.
abbrev pub Point : Type 0 → Type 0
Point W = Option (TlsStreamTransport W × W)

module _ {W : Type 0} where
  abbrev pub after_open : {A : Type 0} → Option (A × TlsStreamTransport W × W) → Point W
  after_open none = none
  after_open (some r) = some (r.1, r.2)

  abbrev pub after_transfer : {A : Type 0} → TlsStreamTransport W → Option (A × W) → Point W
  after_transfer t none = none
  after_transfer t (some r) = some (t, r.1)

  unfoldable pub step : Call → TlsStreamTransport W → W → Point W
  step opens t w = after_open (open_stream t w)
  step closes t w = let r = close_stream t w in some (r.1, r.2)
  step (reads output) t w = after_transfer t (read_some t output w)
  step (writes input) t w = after_transfer t (write_all t input w)

  unfoldable pub run : List Call → Point W → Point W
  run cs none = none
  run [] (some p) = some p
  run (c ∷ cs) (some p) = run cs (step c p.0 p.1)

  -- The destructor calls `Close`.
  abbrev pub destroy : Point W → Point W
  destroy none = none
  destroy (some p) = let r = close_stream p.0 p.1 in some (r.1, r.2)

  unfoldable pub lifetime :
      Option (ByteStream W)
      → Option (TlsStreamBackend W)
      → TlsStreamTransportOptions
      → List Call
      → W
      → Point W
  lifetime lower backend options cs w =
      destroy (run cs (some (new_stream lower backend options, w)))
