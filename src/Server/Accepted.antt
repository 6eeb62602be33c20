-- ===== src/Server/Accepted.antt =====
-- `AcceptedTcpStream` of tcp_server_transport.cpp. The helpers over one socket repeat those of
-- tcp_stream_transport.cpp, and are the ones of Tcp.Socket.
use dlms_transport.Prelude.{
  ℕ, ℤ, zero, suc, ◌+◌, ◌-◌, Bool, true, false, not, ◌==◌, ◌==ℤ◌, ltb, if◌then◌else◌, is_positive,
  is_zero, to_int, to_size, length, drop, Option, none, some,
}
use dlms_transport.Status.{
  Status, ok, invalid_argument, not_open, already_open, open_failed, read_failed, write_failed,
  timeout, connection_closed, would_block, is_ok, is_timeout,
}
use dlms_transport.Buffer.{Bytes, Input, contents, bad_input, Output, bad_output, Read, no_bytes}
use dlms_transport.Timer.{TransportDuration}
use dlms_transport.Os.{
  Os, Io, ◌>>=◌, ◌>>◌, return, invalid, call_recv, call_send, call_close, last_error,
}
use dlms_transport.Tcp.Socket.{is_would_block, wait_for_socket}

pub record AcceptedTcpStream : Type 0 where
  pub socket : ℤ
  pub read_timeout : TransportDuration
  pub write_timeout : TransportDuration
  pub is_open : Bool

-- The constructor.
unfoldable pub new_accepted : ℤ → TransportDuration → TransportDuration → AcceptedTcpStream
new_accepted socket read_timeout write_timeout = record {
  socket = socket;
  read_timeout = read_timeout;
  write_timeout = write_timeout;
  is_open = true;
}

-- An accepted stream is open from the start, and cannot be opened again.
unfoldable pub open_stream : AcceptedTcpStream → Status
open_stream s = if s.is_open then already_open else open_failed

unfoldable pub close_stream : AcceptedTcpStream → Io (Status × AcceptedTcpStream)
close_stream s = do
  if s.socket ==ℤ invalid then return tt else call_close s.socket
  return (ok, record s { socket = invalid; is_open = false })

module _ (os : Os) where
  -- The peer has closed its side: so does the object.
  unfoldable pub peer_closed : AcceptedTcpStream → Io (Read × AcceptedTcpStream)
  unfolding close_stream
  peer_closed s = do closed ← close_stream s; return (no_bytes connection_closed, closed.1)

  -- After a `recv`.
  unfoldable pub received : AcceptedTcpStream → ℤ × Bytes → Io (Read × AcceptedTcpStream)
  unfolding peer_closed
  received s answer =
      if is_positive answer.0
      then return (record { status = ok; bytes_read = to_size answer.0; output = answer.1 }, s)
      else if is_zero answer.0
      then peer_closed s
      else do
        error ← last_error os
        return (no_bytes (if is_would_block os error then would_block else read_failed), s)

  unfoldable pub read_some : Output → AcceptedTcpStream → Io (Read × AcceptedTcpStream)
  unfolding received
  read_some output s =
      if not s.is_open
      then return (no_bytes not_open, s)
      else if bad_output output
      then return (no_bytes invalid_argument, s)
      else if output.size == 0
      then return (no_bytes ok, s)
      else do
        waited ← wait_for_socket os s.socket true s.read_timeout
        if not (is_ok waited)
            then return (no_bytes waited, s)
            else do answer ← call_recv os s.socket (to_size (to_int output.size)); received s answer

  -- The loop of `WriteAll` on fuel: `none` means that it has not ended within the fuel.
  unfoldable pub write_loop : ℤ → TransportDuration → Bytes → ℕ → ℕ → Io (Option Status)
  write_loop fd write_timeout input zero written = return none
  write_loop fd write_timeout input (suc fuel) written =
      if not (ltb written (length input)) then return (some ok) else do
        waited ← wait_for_socket os fd false write_timeout
        if not (is_ok waited)
            then return (some (if is_timeout waited then timeout else write_failed))
            else do
              chunk ←
                  call_send os fd (drop written input) (to_size (to_int (length input - written)))
              if is_positive chunk
                  then write_loop fd write_timeout input fuel (written + to_size chunk)
                  else if is_zero chunk
                  then return (some write_failed)
                  else do
                    error ← last_error os
                    if is_would_block os error
                        then write_loop fd write_timeout input fuel written
                        else return (some write_failed)

  unfoldable pub write_all : ℕ → Input → AcceptedTcpStream → Io (Option Status)
  unfolding write_loop
  write_all fuel input s =
      if not s.is_open
      then return (some not_open)
      else if bad_input input
      then return (some invalid_argument)
      else write_loop s.socket s.write_timeout (contents input) fuel 0
