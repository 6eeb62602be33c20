-- ===== src/Serial/Session.antt =====
-- Sequences of calls on one `SerialTransport`, up to its destructor.
use dlms_transport.Prelude.{ℕ, List, [], ◌∷◌}
use dlms_transport.Buffer.{Input, Output}
use dlms_transport.Os.{Os, Io, ◌>>=◌, return}
use dlms_transport.Serial.Port.{
  SerialTransport, SerialTransportOptions, new_port, open_port, close_port, read_some, write_all,
}

-- A write comes with the fuel of its loop.
pub data Call : Type 0 where
  opens closes : Call
  reads : Output → Call
  writes : ℕ → Input → Call

module _ (os : Os) where
  unfoldable pub step : Call → SerialTransport → Io SerialTransport
  step opens t = do r ← open_port os t; return r.1
  step closes t = do r ← close_port os t; return r.1
  step (reads output) t = do r ← read_some os output t; return t
  step (writes fuel input) t = do r ← write_all os fuel input t; return t

  unfoldable pub run : List Call → SerialTransport → Io SerialTransport
  run [] t = return t
  run (c ∷ cs) t = do next ← step c t; run cs next

  -- The object from its constructor to its destructor, which calls `Close`.
  unfoldable pub lifetime : SerialTransportOptions → List Call → Io SerialTransport
  unfolding new_port
  lifetime options cs = do t ← run cs (new_port options); closed ← close_port os t; return closed.1
