-- ===== src/Udp/Session.antt =====
-- Sequences of calls on one `UdpTransport`, up to its destructor.
use dlms_transport.Prelude.{List, [], ◌∷◌}
use dlms_transport.Buffer.{Input, Output}
use dlms_transport.Os.{Os, Io, ◌>>=◌, return}
use dlms_transport.Udp.Transport.{
  UdpTransport, UdpTransportOptions, new_transport, open_transport, close_transport, send, receive,
  local_port,
}

pub data Call : Type 0 where
  opens closes asks_port : Call
  sends : Input → Call
  receives : Output → Call

module _ (os : Os) where
  unfoldable pub step : Call → UdpTransport → Io UdpTransport
  step opens t = do r ← open_transport os t; return r.1
  step closes t = do r ← close_transport os t; return r.1
  step asks_port t = do r ← local_port os t; return t
  step (sends input) t = do r ← send os input t; return t
  step (receives output) t = do r ← receive os output t; return t

  unfoldable pub run : List Call → UdpTransport → Io UdpTransport
  run [] t = return t
  run (c ∷ cs) t = do next ← step c t; run cs next

  -- The object from its constructor to its destructor, which calls `Close`.
  unfoldable pub lifetime : UdpTransportOptions → List Call → Io UdpTransport
  unfolding new_transport
  lifetime options cs = do
    t ← run cs (new_transport options)
    closed ← close_transport os t
    return closed.1
