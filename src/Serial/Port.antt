-- ===== src/Serial/Port.antt =====
-- `SerialTransport` of serial_transport.cpp: the object, and its operations as actions. Its
-- `ToTimeval` and `WaitForHandle` repeat those of tcp_stream_transport.cpp, and are the ones of
-- Tcp.Socket.
use dlms_transport.Prelude.{
  ℕ, ℤ, zero, suc, ◌+◌, ◌-◌, Bool, true, false, not, ◌&&◌, ◌||◌, ◌==◌, ◌==ℤ◌, ltb, leb,
  if◌then◌else◌, is_positive, is_zero, is_negative, to_size, length, is_empty, drop, Option, none,
  some,
}
use dlms_transport.Status.{
  Status, ok, invalid_argument, not_open, already_open, open_failed, read_failed, write_failed,
  timeout, would_block, is_ok, is_timeout,
}
use dlms_transport.Buffer.{
  Bytes, Input, contents, bad_input, input_size, Output, bad_output, Read, no_bytes,
}
use dlms_transport.Timer.{TransportDuration}
use dlms_transport.Os.{
  Os, Io, ◌>>=◌, ◌>>◌, return, invalid, call_open_device, call_read, call_write, call_close,
  last_error,
}
use dlms_transport.Tcp.Socket.{wait_for_socket}

pub data SerialParity : Type 0 where
  no_parity even_parity odd_parity : SerialParity

pub data SerialStopBits : Type 0 where
  one_stop_bit two_stop_bits : SerialStopBits

pub record SerialTransportOptions : Type 0 where
  pub device_name : Bytes
  pub baud_rate : ℕ
  pub data_bits : ℕ
  pub parity : SerialParity
  pub stop_bits : SerialStopBits
  pub read_timeout : TransportDuration
  pub write_timeout : TransportDuration

pub record SerialTransport : Type 0 where
  pub options : SerialTransportOptions
  pub handle : ℤ
  pub is_open : Bool

-- The constructor.
unfoldable pub new_port : SerialTransportOptions → SerialTransport
new_port options = record { options = options; handle = invalid; is_open = false }

-- `IsOpen`
abbrev pub is_port_open : SerialTransport → Bool
is_port_open t = t.is_open

abbrev pub options_are_valid : SerialTransportOptions → Bool
options_are_valid options =
    not (is_empty options.device_name)
    && not (options.baud_rate == 0)
    && leb 5 options.data_bits
    && leb options.data_bits 8

-- `errno == EAGAIN || errno == EWOULDBLOCK`
abbrev pub is_would_block : Os → ℕ → Bool
is_would_block os error = error == os.eagain || error == os.ewouldblock

module _ (os : Os) where
  unfoldable pub open_port : SerialTransport → Io (Status × SerialTransport)
  open_port t =
      if t.is_open
      then return (already_open, t)
      else if not (options_are_valid t.options)
      then return (invalid_argument, t)
      else do
        handle ← call_open_device os t.options.device_name
        return (
            if handle ==ℤ invalid
            then (open_failed, t)
            else (ok, record t { handle = handle; is_open = true }))

  unfoldable pub close_port : SerialTransport → Io (Status × SerialTransport)
  close_port t = do
    if t.handle ==ℤ invalid then return tt else call_close t.handle
    return (ok, record t { handle = invalid; is_open = false })

  unfoldable pub native_read : ℤ → ℕ → TransportDuration → Io Read
  native_read handle size read_timeout = do
    waited ← wait_for_socket os handle true read_timeout
    if not (is_ok waited) then return (no_bytes waited) else do
      answer ← call_read os handle size
      if not (is_negative answer.0)
          then return (record { status = ok; bytes_read = to_size answer.0; output = answer.1 })
          else do
            error ← last_error os
            return (no_bytes (if is_would_block os error then would_block else read_failed))

  unfoldable pub read_some : Output → SerialTransport → Io Read
  unfolding native_read
  read_some output t =
      if not t.is_open
      then return (no_bytes not_open)
      else if bad_output output
      then return (no_bytes invalid_argument)
      else if output.size == 0
      then return (no_bytes ok)
      else native_read t.handle output.size t.options.read_timeout

  -- The loop on fuel: `none` means that it has not ended within the fuel.
  unfoldable pub native_write_all : ℤ → TransportDuration → Bytes → ℕ → ℕ → Io (Option Status)
  native_write_all handle write_timeout input zero written = return none
  native_write_all handle write_timeout input (suc fuel) written =
      if not (ltb written (length input)) then return (some ok) else do
        waited ← wait_for_socket os handle false write_timeout
        if not (is_ok waited)
            then return (some (if is_timeout waited then timeout else write_failed))
            else do
              chunk ← call_write os handle (drop written input) (length input - written)
              if is_positive chunk
                  then native_write_all handle write_timeout input fuel (written + to_size chunk)
                  else if is_zero chunk
                  then return (some write_failed)
                  else do
                    error ← last_error os
                    if is_would_block os error
                        then native_write_all handle write_timeout input fuel written
                        else return (some write_failed)

  unfoldable pub write_all : ℕ → Input → SerialTransport → Io (Option Status)
  write_all fuel input t =
      if not t.is_open
      then return (some not_open)
      else if bad_input input
      then return (some invalid_argument)
      else if input_size input == 0
      then return (some ok)
      else native_write_all t.handle t.options.write_timeout (contents input) fuel 0
