-- ===== src/Server/Session.antt =====
-- The calls on one `TcpServerTransport`, and on one `std::unique_ptr<IByteStream>` that `Accept` fills.
use dlms_transport.Prelude.{ℕ, Option, none, some}
use dlms_transport.Buffer.{Input, Output}
use dlms_transport.Os.{Os, Io, ◌>>=◌, ◌>>◌, return}
use dlms_transport.Server.Accepted.{AcceptedTcpStream, close_stream, read_some, write_all}
use dlms_transport.Server.Listener.{TcpServerTransport, open_server, close_server, reset_connection}

-- `IsOpen` and `LocalPort` change nothing and call nothing.
pub data ServerCall : Type 0 where
  opens closes : ServerCall

-- A write comes with the fuel of its loop.
pub data StreamCall : Type 0 where
  closes resets : StreamCall
  reads : Output → StreamCall
  writes : ℕ → Input → StreamCall

module _ (os : Os) where
  unfoldable pub server_step : ServerCall → TcpServerTransport → Io TcpServerTransport
  server_step opens t = do r ← open_server os t; return r.1
  server_step closes t = do r ← close_server os t; return r.1

  unfoldable pub stream_step : StreamCall → AcceptedTcpStream → Io (Option AcceptedTcpStream)
  stream_step closes s = do r ← close_stream s; return (some r.1)
  stream_step resets s = do reset_connection (some s); return none
  stream_step (reads output) s = do r ← read_some os output s; return (some r.1)
  stream_step (writes fuel input) s = do r ← write_all os fuel input s; return (some s)

  -- A pointer that holds nothing is not called.
  unfoldable pub connection_step :
      StreamCall → Option AcceptedTcpStream → Io (Option AcceptedTcpStream)
  unfolding stream_step
  connection_step c none = return none
  connection_step c (some s) = stream_step c s
