-- ===== src/Tcp/Stream.antt =====
-- `TcpStreamTransport` of tcp_stream_transport.cpp: the object, and its operations as actions.
use dlms_transport.Prelude.{
  ℕ, ℤ, zero, suc, ◌+◌, ◌-◌, Bool, true, false, not, ◌||◌, ◌==◌, ◌==ℤ◌, ltb, if◌then◌else◌,
  is_positive, is_zero, to_int, to_size, List, [], ◌∷◌, length, is_empty, drop, Option, none, some,
}
use dlms_transport.Status.{
  Status, ok, invalid_argument, not_open, already_open, open_failed, read_failed, write_failed,
  timeout, connection_closed, would_block, is_ok, is_timeout,
}
use dlms_transport.Buffer.{Bytes, Input, contents, bad_input, Output, bad_output}
use dlms_transport.Buffer.{Read, no_bytes}
use dlms_transport.Timer.{TransportDuration}
use dlms_transport.Os.{
  Os, Io, ◌>>=◌, ◌>>◌, return, invalid, Address, Hints, call_getaddrinfo, call_socket, call_connect,
  call_recv, call_send, call_close, call_freeaddrinfo, last_error,
}
use dlms_transport.Tcp.Socket.{
  socket_runtime_ready, is_would_block, set_non_blocking, wait_for_socket, check_connected,
}

pub record TcpStreamTransportOptions : Type 0 where
  pub host : Bytes
  pub port : ℕ
  pub connect_timeout : TransportDuration
  pub read_timeout : TransportDuration
  pub write_timeout : TransportDuration

pub record TcpStreamTransport : Type 0 where
  pub options : TcpStreamTransportOptions
  pub socket : ℤ
  pub is_open : Bool

-- The constructor.
unfoldable pub new_stream : TcpStreamTransportOptions → TcpStreamTransport
new_stream options = record { options = options; socket = invalid; is_open = false }

-- What one address comes to: the loop goes on with a final status so far, or has its socket.
pub data Attempt : Type 0 where
  retry : Status → Attempt
  connected : ℤ → Attempt

module _ (os : Os) where
  abbrev pub give_up : ℤ → Status → Io Attempt
  give_up candidate final = do call_close candidate; return (retry final)

  -- The connection is in progress: wait until it is there or has failed.
  unfoldable pub await_connection : TransportDuration → ℤ → Io Attempt
  await_connection connect_timeout candidate = do
    waited ← wait_for_socket os candidate false connect_timeout
    status ← if is_ok waited then check_connected os candidate else return waited
    if is_ok status then return (connected candidate) else give_up candidate status

  unfoldable pub connect_candidate : TransportDuration → Address → Status → ℤ → Io Attempt
  unfolding await_connection
  connect_candidate connect_timeout address final candidate = do
    result ← call_connect os candidate address
    if is_zero result then return (connected candidate) else do
      error ← last_error os
      if is_would_block os error
          then await_connection connect_timeout candidate
          else give_up candidate final

  unfoldable pub configure_candidate : TransportDuration → Address → Status → ℤ → Io Attempt
  unfolding connect_candidate
  configure_candidate connect_timeout address final candidate = do
    non_blocking ← set_non_blocking os candidate
    if non_blocking
        then connect_candidate connect_timeout address final candidate
        else give_up candidate final

  -- The body of the loop over the addresses.
  unfoldable pub attempt : TransportDuration → Address → Status → Io Attempt
  unfolding configure_candidate
  attempt connect_timeout address final = do
    candidate ← call_socket os address.ai_family address.ai_socktype address.ai_protocol
    if candidate ==ℤ invalid
        then return (retry final)
        else configure_candidate connect_timeout address final candidate

  -- The loop, with `finalStatus`.
  unfoldable pub try_addresses : TransportDuration → List Address → Status → Io Attempt
  try_addresses connect_timeout [] final = return (retry final)
  try_addresses connect_timeout (address ∷ rest) final = do
    outcome ← attempt connect_timeout address final
    elim outcome [
      | retry status ↦ try_addresses connect_timeout rest status
      | connected candidate ↦ return (connected candidate)
    ]

  abbrev pub opened : TcpStreamTransport → Attempt → Status × TcpStreamTransport
  opened t (retry status) = (status, t)
  opened t (connected candidate) = (ok, record t { socket = candidate; is_open = true })

  abbrev pub hints : Hints
  hints = record {
    ai_family = os.af_unspec;
    ai_socktype = os.sock_stream;
    ai_protocol = os.ipproto_tcp;
    ai_flags = 0;
  }

  unfoldable pub resolve_and_connect :
      TcpStreamTransport → Option (List Address) → Io (Status × TcpStreamTransport)
  resolve_and_connect t none = return (open_failed, t)
  resolve_and_connect t (some addresses) = do
    outcome ← try_addresses t.options.connect_timeout addresses open_failed
    call_freeaddrinfo addresses
    return (opened t outcome)

  unfoldable pub open_stream : TcpStreamTransport → Io (Status × TcpStreamTransport)
  unfolding resolve_and_connect
  open_stream t =
      if t.is_open
      then return (already_open, t)
      else if is_empty t.options.host || t.options.port == 0
      then return (invalid_argument, t)
      else if not socket_runtime_ready
      then return (open_failed, t)
      else do
        addresses ← call_getaddrinfo os (some t.options.host) t.options.port hints
        resolve_and_connect t addresses

  unfoldable pub close_stream : TcpStreamTransport → Io (Status × TcpStreamTransport)
  close_stream t = do
    if t.socket ==ℤ invalid then return tt else call_close t.socket
    return (ok, record t { socket = invalid; is_open = false })

  abbrev pub is_stream_open : TcpStreamTransport → Bool
  is_stream_open t = t.is_open

  -- The peer has closed its side: so does the object.
  unfoldable pub peer_closed : TcpStreamTransport → Io (Read × TcpStreamTransport)
  unfolding close_stream
  peer_closed t = do closed ← close_stream t; return (no_bytes connection_closed, closed.1)

  -- After a `recv` of `result` bytes.
  unfoldable pub received : TcpStreamTransport → ℤ × Bytes → Io (Read × TcpStreamTransport)
  unfolding peer_closed
  received t answer =
      if is_positive answer.0
      then return (record { status = ok; bytes_read = to_size answer.0; output = answer.1 }, t)
      else if is_zero answer.0
      then peer_closed t
      else do
        error ← last_error os
        return (no_bytes (if is_would_block os error then would_block else read_failed), t)

  unfoldable pub read_some : Output → TcpStreamTransport → Io (Read × TcpStreamTransport)
  unfolding received
  read_some output t =
      if not t.is_open
      then return (no_bytes not_open, t)
      else if bad_output output
      then return (no_bytes invalid_argument, t)
      else if output.size == 0
      then return (no_bytes ok, t)
      else do
        waited ← wait_for_socket os t.socket true t.options.read_timeout
        if not (is_ok waited)
            then return (no_bytes waited, t)
            else do answer ← call_recv os t.socket (to_size (to_int output.size)); received t answer

  -- The loop of `WriteAll` on fuel: `none` means that it has not ended within the fuel.
  unfoldable pub write_loop : ℤ → TransportDuration → Bytes → ℕ → ℕ → Io (Option Status)
  write_loop fd write_timeout input zero written = return none
  write_loop fd write_timeout input (suc fuel) written =
      if not (ltb written (length input)) then return (some ok) else do
        waited ← wait_for_socket os fd false write_timeout
        if not (is_ok waited)
            then return (some (if is_timeout waited then timeout else write_failed))
            else do
              chunk ←
                  call_send os fd (drop written input) (to_size (to_int (length input - written)))
              if is_positive chunk
                  then write_loop fd write_timeout input fuel (written + to_size chunk)
                  else if is_zero chunk
                  then return (some write_failed)
                  else do
                    error ← last_error os
                    if is_would_block os error
                        then write_loop fd write_timeout input fuel written
                        else return (some write_failed)

  unfoldable pub write_all :
      ℕ → Input → TcpStreamTransport → Io (Option Status × TcpStreamTransport)
  unfolding write_loop
  write_all fuel input t =
      if not t.is_open
      then return (some not_open, t)
      else if bad_input input
      then return (some invalid_argument, t)
      else do
        status ← write_loop t.socket t.options.write_timeout (contents input) fuel 0
        return (status, t)
