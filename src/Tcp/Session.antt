-- ===== src/Tcp/Session.antt =====
-- Sequences of calls on one `TcpStreamTransport`, up to its destructor.
use dlms_transport.Prelude.{ℕ, List, [], ◌∷◌}
use dlms_transport.Buffer.{Input, Output}
use dlms_transport.Os.{Os, Io, ◌>>=◌, return}
use dlms_transport.Tcp.Stream.{
  TcpStreamTransport, TcpStreamTransportOptions, new_stream, open_stream, close_stream, read_some,
  write_all,
}

-- A write comes with the fuel of its loop.
pub data Call : Type 0 where
  opens closes : Call
  reads : Output → Call
  writes : ℕ → Input → Call

module _ (os : Os) where
  unfoldable pub step : Call → TcpStreamTransport → Io TcpStreamTransport
  step opens t = do r ← open_stream os t; return r.1
  step closes t = do r ← close_stream os t; return r.1
  step (reads output) t = do r ← read_some os output t; return r.1
  step (writes fuel input) t = do r ← write_all os fuel input t; return r.1

  unfoldable pub run : List Call → TcpStreamTransport → Io TcpStreamTransport
  run [] t = return t
  run (c ∷ cs) t = do next ← step c t; run cs next

  -- The object from its constructor to its destructor, which calls `Close`.
  unfoldable pub lifetime : TcpStreamTransportOptions → List Call → Io TcpStreamTransport
  unfolding new_stream
  lifetime options cs = do
    t ← run cs (new_stream options)
    closed ← close_stream os t
    return closed.1
