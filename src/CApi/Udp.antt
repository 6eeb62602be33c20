-- ===== src/CApi/Udp.antt =====
-- The `dlms_transport_udp_*` functions. A handle is a pointer to an object, or null: `none`.
use dlms_transport.Prelude.{ℕ, Bool, if◌then◌else◌, [], ◌∷◌, Option, none, some}
use dlms_transport.Buffer.{Bytes, Input, Output}
use dlms_transport.Os.{Os, Io, ◌>>=◌, return}
use dlms_transport.Udp.Transport.{
  UdpTransport, UdpTransportOptions, new_transport, open_transport, is_transport_open,
  close_transport, local_port, send, receive,
}
use dlms_transport.CApi.Codes.{
  code_ok, code_invalid_argument, code_internal_error, to_c_status, duration, CodedRead, coded,
  refused_read,
}

-- `dlms_transport_udp_options_t`. A `const char*` that is null is `none`.
pub record UdpOptions : Type 0 where
  pub local_host : Option Bytes
  pub local_port : ℕ
  pub remote_host : Option Bytes
  pub remote_port : ℕ
  pub receive_timeout_ms : ℕ
  pub send_timeout_ms : ℕ

-- The string, or what the member of the C++ options was before.
abbrev pub string_or : Bytes → Option Bytes → Bytes
string_or before none = before
string_or before (some s) = s

-- The default of `localHost` is "0.0.0.0", the one of `remoteHost` the empty string.
abbrev pub any_host : Bytes
any_host = 48 ∷ 46 ∷ 48 ∷ 46 ∷ 48 ∷ 46 ∷ 48 ∷ []

abbrev pub udp_cpp_options : UdpOptions → UdpTransportOptions
udp_cpp_options options = record {
  local_host = string_or any_host options.local_host;
  local_port = options.local_port;
  remote_host = string_or [] options.remote_host;
  remote_port = options.remote_port;
  receive_timeout = duration options.receive_timeout_ms;
  send_timeout = duration options.send_timeout_ms;
}

-- `memory`: `new` and the copies succeed. `out_null`: the pointer for the handle is null. The
-- answer is the code, and `*transport` after it.
unfoldable pub udp_create : Bool → Option UdpOptions → Bool → ℕ × Option UdpTransport
udp_create memory none out_null = (code_invalid_argument, none)
udp_create memory (some options) out_null =
    if out_null
    then (code_invalid_argument, none)
    else if memory
    then (code_ok, some (new_transport (udp_cpp_options options)))
    else (code_internal_error, none)

module _ (os : Os) where
  -- The destructor closes.
  unfoldable pub udp_destroy : Option UdpTransport → Io (Option UdpTransport)
  udp_destroy none = return none
  udp_destroy (some t) = do closed ← close_transport os t; return none

  unfoldable pub udp_open : Option UdpTransport → Io (ℕ × Option UdpTransport)
  udp_open none = return (code_invalid_argument, none)
  udp_open (some t) = do r ← open_transport os t; return (to_c_status r.0, some r.1)

  unfoldable pub udp_close : Option UdpTransport → Io (ℕ × Option UdpTransport)
  udp_close none = return (code_invalid_argument, none)
  udp_close (some t) = do r ← close_transport os t; return (to_c_status r.0, some r.1)

  unfoldable pub udp_is_open : Option UdpTransport → ℕ
  udp_is_open none = 0
  udp_is_open (some t) = if is_transport_open t then 1 else 0

  unfoldable pub udp_local_port : Option UdpTransport → Io ℕ
  udp_local_port none = return 0
  udp_local_port (some t) = local_port os t

  unfoldable pub udp_send : Input → Option UdpTransport → Io ℕ
  udp_send input none = return code_invalid_argument
  udp_send input (some t) = do status ← send os input t; return (to_c_status status)

  -- `null`: the pointer for `bytes_read` is null.
  unfoldable pub udp_receive : Output → Bool → Option UdpTransport → Io CodedRead
  udp_receive output null none = return (refused_read null)
  udp_receive output null (some t) =
      if null then return (refused_read null) else do r ← receive os output t; return (coded r)
