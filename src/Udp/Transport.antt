-- ===== src/Udp/Transport.antt =====
-- `UdpTransport` of udp_transport.cpp: the object, and its operations as actions.
use dlms_transport.Prelude.{
  ℕ, ℤ, Bool, true, false, not, ◌&&◌, ◌||◌, ◌==◌, ◌==ℤ◌, ltb, if◌then◌else◌, is_zero, is_negative,
  to_int, to_size, List, [], ◌∷◌, length, is_empty, Option, none, some,
}
use dlms_transport.Status.{
  Status, ok, invalid_argument, not_open, already_open, open_failed, read_failed, write_failed,
  timeout, would_block, output_buffer_too_small, is_ok, is_timeout,
}
use dlms_transport.Buffer.{Bytes, Input, contents, bad_input, Output, bad_output, Read, no_bytes}
use dlms_transport.Timer.{TransportDuration}
use dlms_transport.Os.{
  Os, Io, ◌>>=◌, ◌>>◌, return, invalid, Address, call_socket, call_bind, call_connect, call_recv,
  call_send, call_close, call_freeaddrinfo, last_error,
}
use dlms_transport.Tcp.Socket.{socket_runtime_ready, set_non_blocking, wait_for_socket}
use dlms_transport.Udp.Socket.{
  is_would_block, pending_datagram_size, resolve_udp_address, bound_local_port,
}

pub record UdpTransportOptions : Type 0 where
  pub local_host : Bytes
  pub local_port : ℕ
  pub remote_host : Bytes
  pub remote_port : ℕ
  pub receive_timeout : TransportDuration
  pub send_timeout : TransportDuration

pub record UdpTransport : Type 0 where
  pub options : UdpTransportOptions
  pub socket : ℤ
  pub is_open : Bool
  pub remote_configured : Bool

-- The constructor.
unfoldable pub new_transport : UdpTransportOptions → UdpTransport
new_transport options = record {
  options = options;
  socket = invalid;
  is_open = false;
  remote_configured = false;
}

-- `IsOpen`
abbrev pub is_transport_open : UdpTransport → Bool
is_transport_open t = t.is_open

-- The remote host and the remote port are given both or neither.
abbrev pub bad_remote : UdpTransportOptions → Bool
bad_remote options =
    (is_empty options.remote_host && not (options.remote_port == 0))
    || (not (is_empty options.remote_host) && options.remote_port == 0)

abbrev pub has_remote : UdpTransportOptions → Bool
has_remote options = not (is_empty options.remote_host)

module _ (os : Os) where
  -- The candidate is closed, and the loop goes on.
  abbrev pub discard : ℤ → Io (Option ℤ)
  discard candidate = do call_close candidate; return none

  -- The inner loop, up to the first address that can be bound.
  unfoldable pub bind_any : ℤ → List Address → Io Bool
  bind_any candidate [] = return false
  bind_any candidate (local ∷ rest) = do
    result ← call_bind os candidate local
    if is_zero result then return true else bind_any candidate rest

  unfoldable pub connect_remote : Bool → Address → ℤ → Io (Option ℤ)
  connect_remote remote address candidate = if not remote then return (some candidate) else do
    result ← call_connect os candidate address
    if is_zero result then return (some candidate) else discard candidate

  unfoldable pub bind_candidate : UdpTransportOptions → Address → ℤ → Io (Option ℤ)
  unfolding connect_remote
  bind_candidate options address candidate = do
    locals ←
        resolve_udp_address os options.local_host options.local_port address.ai_family os.ai_passive
    bound ← bind_any candidate locals
    if is_empty locals then return tt else call_freeaddrinfo locals
    if not bound then discard candidate else connect_remote (has_remote options) address candidate

  unfoldable pub configure_candidate : UdpTransportOptions → Address → ℤ → Io (Option ℤ)
  unfolding bind_candidate
  configure_candidate options address candidate = do
    non_blocking ← set_non_blocking os candidate
    if not non_blocking then discard candidate else bind_candidate options address candidate

  -- The body of the loop over the addresses: `none` where it continues.
  unfoldable pub attempt : UdpTransportOptions → Address → Io (Option ℤ)
  unfolding configure_candidate
  attempt options address = do
    candidate ← call_socket os address.ai_family os.sock_dgram os.ipproto_udp
    if candidate ==ℤ invalid then return none else configure_candidate options address candidate

  unfoldable pub try_addresses : UdpTransportOptions → List Address → Io (Option ℤ)
  try_addresses options [] = return none
  try_addresses options (address ∷ rest) = do
    outcome ← attempt options address
    elim outcome [ none ↦ try_addresses options rest | some candidate ↦ return (some candidate) ]

  abbrev pub opened : UdpTransport → Option ℤ → Status × UdpTransport
  opened t none = (open_failed, t)
  opened t (some candidate) = (
    ok,
    record t { socket = candidate; is_open = true; remote_configured = has_remote t.options },
  )

  -- `firstAddress`: the remote addresses, or the local ones if there is no remote.
  abbrev pub first_address : UdpTransportOptions → Io (List Address)
  first_address options =
      if has_remote options
      then resolve_udp_address os options.remote_host options.remote_port os.af_unspec 0
      else resolve_udp_address os options.local_host options.local_port os.af_unspec os.ai_passive

  unfoldable pub open_over : UdpTransport → List Address → Io (Status × UdpTransport)
  open_over t addresses = do
    outcome ← try_addresses t.options addresses
    call_freeaddrinfo addresses
    return (opened t outcome)

  unfoldable pub open_transport : UdpTransport → Io (Status × UdpTransport)
  unfolding open_over
  open_transport t =
      if t.is_open
      then return (already_open, t)
      else if bad_remote t.options
      then return (invalid_argument, t)
      else if not socket_runtime_ready
      then return (open_failed, t)
      else do
        addresses ← first_address t.options
        if is_empty addresses then return (open_failed, t) else open_over t addresses

  unfoldable pub close_transport : UdpTransport → Io (Status × UdpTransport)
  close_transport t = do
    if t.socket ==ℤ invalid then return tt else call_close t.socket
    return (ok, record t { socket = invalid; is_open = false; remote_configured = false })

  -- After a `send` that answered `count`.
  unfoldable pub sent_status : ℕ → ℤ → Io Status
  sent_status size count =
      if not (is_negative count)
      then return (if to_size count == size then ok else write_failed)
      else do
        error ← last_error os
        return (if is_would_block os error then would_block else write_failed)

  unfoldable pub send : Input → UdpTransport → Io Status
  unfolding sent_status
  send input t =
      if not t.is_open
      then return not_open
      else if not t.remote_configured
      then return invalid_argument
      else if bad_input input
      then return invalid_argument
      else do
        waited ← wait_for_socket os t.socket false t.options.send_timeout
        if not (is_ok waited)
            then return (if is_timeout waited then timeout else write_failed)
            else do
              count ←
                  call_send os t.socket (contents input)
                    (to_size (to_int (length (contents input))))
              sent_status (length (contents input)) count

  -- After a `recv`.
  unfoldable pub received : ℤ × Bytes → Io Read
  received answer =
      if not (is_negative answer.0)
      then return (record { status = ok; bytes_read = to_size answer.0; output = answer.1 })
      else do
        error ← last_error os
        return (no_bytes (if is_would_block os error then would_block else read_failed))

  -- With the size of the datagram that waits.
  unfoldable pub receive_pending : Output → UdpTransport → Option ℕ → Io Read
  unfolding received
  receive_pending output t none = return (no_bytes read_failed)
  receive_pending output t (some pending) =
      if ltb output.size pending
      then return (no_bytes output_buffer_too_small)
      else do answer ← call_recv os t.socket (to_size (to_int output.size)); received answer

  unfoldable pub receive : Output → UdpTransport → Io Read
  unfolding receive_pending
  receive output t =
      if not t.is_open
      then return (no_bytes not_open)
      else if bad_output output
      then return (no_bytes invalid_argument)
      else do
        waited ← wait_for_socket os t.socket true t.options.receive_timeout
        if not (is_ok waited)
            then return (no_bytes waited)
            else do pending ← pending_datagram_size os t.socket; receive_pending output t pending

  abbrev pub port_or_zero : Option ℕ → ℕ
  port_or_zero none = 0
  port_or_zero (some port) = port

  unfoldable pub local_port : UdpTransport → Io ℕ
  local_port t =
      if not t.is_open
      then return 0
      else do port ← bound_local_port os t.socket; return (port_or_zero port)
