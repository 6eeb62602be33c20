-- ===== src/CApi/Serial.antt =====
-- The `dlms_transport_serial_*` functions. A handle is a pointer to an object, or null: `none`.
use dlms_transport.Prelude.{ℕ, Bool, not, ◌||◌, if◌then◌else◌, Option, none, some}
use dlms_transport.Buffer.{Bytes, Input, Output}
use dlms_transport.Os.{Os, Io, ◌>>=◌, return}
use dlms_transport.Serial.Port.{
  SerialTransport, SerialTransportOptions, new_port, open_port, is_port_open, close_port, read_some,
  write_all,
}
use dlms_transport.CApi.Codes.{
  code_ok, code_invalid_argument, code_internal_error, to_c_status, duration, to_cpp_parity,
  to_cpp_stop_bits, valid_parity, valid_stop_bits, CodedRead, coded, refused_read, coded_end,
}

-- `dlms_transport_serial_options_t`. A `const char*` that is null is `none`.
pub record SerialOptions : Type 0 where
  pub device_name : Option Bytes
  pub baud_rate : ℕ
  pub data_bits : ℕ
  pub parity : ℕ
  pub stop_bits : ℕ
  pub read_timeout_ms : ℕ
  pub write_timeout_ms : ℕ

abbrev pub serial_cpp_options : SerialOptions → Bytes → SerialTransportOptions
serial_cpp_options options device_name = record {
  device_name = device_name;
  baud_rate = options.baud_rate;
  data_bits = options.data_bits;
  parity = to_cpp_parity options.parity;
  stop_bits = to_cpp_stop_bits options.stop_bits;
  read_timeout = duration options.read_timeout_ms;
  write_timeout = duration options.write_timeout_ms;
}

-- With the options and the name that are not null. `memory`: `new` and the copies succeed.
abbrev pub serial_create_with : Bool → SerialOptions → Option Bytes → ℕ × Option SerialTransport
serial_create_with memory options none = (code_invalid_argument, none)
serial_create_with memory options (some device_name) =
    if not (valid_parity options.parity) || not (valid_stop_bits options.stop_bits)
    then (code_invalid_argument, none)
    else if memory
    then (code_ok, some (new_port (serial_cpp_options options device_name)))
    else (code_internal_error, none)

-- The code, and `*transport` after it. `out_null`: the pointer for it is null.
unfoldable pub serial_create : Bool → Option SerialOptions → Bool → ℕ × Option SerialTransport
serial_create memory none out_null = (code_invalid_argument, none)
serial_create memory (some options) out_null =
    if out_null
    then (code_invalid_argument, none)
    else serial_create_with memory options options.device_name

module _ (os : Os) where
  -- The destructor closes.
  unfoldable pub serial_destroy : Option SerialTransport → Io (Option SerialTransport)
  serial_destroy none = return none
  serial_destroy (some t) = do closed ← close_port os t; return none

  unfoldable pub serial_open : Option SerialTransport → Io (ℕ × Option SerialTransport)
  serial_open none = return (code_invalid_argument, none)
  serial_open (some t) = do r ← open_port os t; return (to_c_status r.0, some r.1)

  unfoldable pub serial_close : Option SerialTransport → Io (ℕ × Option SerialTransport)
  serial_close none = return (code_invalid_argument, none)
  serial_close (some t) = do r ← close_port os t; return (to_c_status r.0, some r.1)

  unfoldable pub serial_is_open : Option SerialTransport → ℕ
  serial_is_open none = 0
  serial_is_open (some t) = if is_port_open t then 1 else 0

  -- `null`: the pointer for `bytes_read` is null.
  unfoldable pub serial_read_some : Output → Bool → Option SerialTransport → Io CodedRead
  serial_read_some output null none = return (refused_read null)
  serial_read_some output null (some t) =
      if null then return (refused_read null) else do r ← read_some os output t; return (coded r)

  -- On the fuel of `WriteAll`: no code means that it has not ended.
  unfoldable pub serial_write_all : ℕ → Input → Option SerialTransport → Io (Option ℕ)
  serial_write_all fuel input none = return (some code_invalid_argument)
  serial_write_all fuel input (some t) = do
    status ← write_all os fuel input t
    return (coded_end status)
