-- ===== src/CApi/Tcp.antt =====
-- The `dlms_transport_tcp_*` functions. A handle is a pointer to an object, or null: `none`.
use dlms_transport.Prelude.{ℕ, Bool, if◌then◌else◌, Option, none, some}
use dlms_transport.Buffer.{Bytes, Input, Output}
use dlms_transport.Os.{Os, Io, ◌>>=◌, return}
use dlms_transport.Tcp.Stream.{
  TcpStreamTransport, TcpStreamTransportOptions, new_stream, open_stream, close_stream,
  is_stream_open, read_some, write_all,
}
use dlms_transport.CApi.Codes.{
  code_ok, code_invalid_argument, code_internal_error, to_c_status, duration, CodedRead, coded,
  refused_read, coded_end,
}

-- `dlms_transport_tcp_options_t`. A `const char*` that is null is `none`.
pub record TcpOptions : Type 0 where
  pub host : Option Bytes
  pub port : ℕ
  pub connect_timeout_ms : ℕ
  pub read_timeout_ms : ℕ
  pub write_timeout_ms : ℕ

abbrev pub tcp_cpp_options : TcpOptions → Bytes → TcpStreamTransportOptions
tcp_cpp_options options host = record {
  host = host;
  port = options.port;
  connect_timeout = duration options.connect_timeout_ms;
  read_timeout = duration options.read_timeout_ms;
  write_timeout = duration options.write_timeout_ms;
}

-- With the options and the host that are not null. `memory`: `new` and the copies succeed.
abbrev pub tcp_create_with : Bool → TcpOptions → Option Bytes → ℕ × Option TcpStreamTransport
tcp_create_with memory options none = (code_invalid_argument, none)
tcp_create_with memory options (some host) =
    if memory
    then (code_ok, some (new_stream (tcp_cpp_options options host)))
    else (code_internal_error, none)

-- The code, and `*transport` after it. `out_null`: the pointer for it is null.
unfoldable pub tcp_create : Bool → Option TcpOptions → Bool → ℕ × Option TcpStreamTransport
tcp_create memory none out_null = (code_invalid_argument, none)
tcp_create memory (some options) out_null =
    if out_null then (code_invalid_argument, none) else tcp_create_with memory options options.host

module _ (os : Os) where
  -- The destructor closes.
  unfoldable pub tcp_destroy : Option TcpStreamTransport → Io (Option TcpStreamTransport)
  tcp_destroy none = return none
  tcp_destroy (some t) = do closed ← close_stream os t; return none

  unfoldable pub tcp_open : Option TcpStreamTransport → Io (ℕ × Option TcpStreamTransport)
  tcp_open none = return (code_invalid_argument, none)
  tcp_open (some t) = do r ← open_stream os t; return (to_c_status r.0, some r.1)

  unfoldable pub tcp_close : Option TcpStreamTransport → Io (ℕ × Option TcpStreamTransport)
  tcp_close none = return (code_invalid_argument, none)
  tcp_close (some t) = do r ← close_stream os t; return (to_c_status r.0, some r.1)

  unfoldable pub tcp_is_open : Option TcpStreamTransport → ℕ
  tcp_is_open none = 0
  tcp_is_open (some t) = if is_stream_open os t then 1 else 0

  -- `null`: the pointer for `bytes_read` is null.
  unfoldable pub tcp_read_some :
      Output → Bool → Option TcpStreamTransport → Io (CodedRead × Option TcpStreamTransport)
  tcp_read_some output null none = return (refused_read null, none)
  tcp_read_some output null (some t) =
      if null
      then return (refused_read null, some t)
      else do r ← read_some os output t; return (coded r.0, some r.1)

  -- On the fuel of `WriteAll`: no code means that it has not ended.
  unfoldable pub tcp_write_all :
      ℕ → Input → Option TcpStreamTransport → Io (Option ℕ × Option TcpStreamTransport)
  tcp_write_all fuel input none = return (some code_invalid_argument, none)
  tcp_write_all fuel input (some t) = do
    r ← write_all os fuel input t
    return (coded_end r.0, some r.1)
