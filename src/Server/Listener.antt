-- ===== src/Server/Listener.antt =====
-- `TcpServerTransport` of tcp_server_transport.cpp: the object, and its operations as actions.
use dlms_transport.Prelude.{
  ℕ, ℤ, Bool, true, false, not, ◌||◌, ◌==◌, ◌==ℤ◌, if◌then◌else◌, is_positive, is_zero, List, [],
  ◌∷◌, is_empty, Option, none, some,
}
use dlms_transport.Status.{
  Status, ok, invalid_argument, not_open, already_open, open_failed, timeout, would_block, is_ok,
  is_timeout,
}
use dlms_transport.Buffer.{Bytes}
use dlms_transport.Timer.{TransportDuration}
use dlms_transport.Os.{
  Os, Io, ◌>>=◌, ◌>>◌, return, invalid, Address, Hints, SockName, call_getaddrinfo, call_socket,
  call_reuse_address, call_bind, call_listen, call_accept, call_getsockname, call_close,
  call_freeaddrinfo, last_error,
}
use dlms_transport.Tcp.Socket.{
  socket_runtime_ready, is_would_block, set_non_blocking, wait_for_socket,
}
use dlms_transport.Server.Accepted.{AcceptedTcpStream, new_accepted, close_stream}

pub record TcpServerTransportOptions : Type 0 where
  pub host : Bytes
  pub port : ℕ
  pub backlog : ℤ
  pub accept_timeout : TransportDuration
  pub read_timeout : TransportDuration
  pub write_timeout : TransportDuration

pub record TcpServerTransport : Type 0 where
  pub options : TcpServerTransportOptions
  pub socket : ℤ
  pub is_open : Bool
  pub local_port : ℕ

-- The constructor.
unfoldable pub new_server : TcpServerTransportOptions → TcpServerTransport
new_server options = record { options = options; socket = invalid; is_open = false; local_port = 0 }

-- `std::unique_ptr<IByteStream>`, and its `reset()`: the stream that it holds is destroyed.
unfoldable pub reset_connection : Option AcceptedTcpStream → Io (Unit {0})
reset_connection none = return tt
reset_connection (some s) = do closed ← close_stream s; return tt

module _ (os : Os) where
  abbrev pub port_of : Option SockName → ℕ
  port_of none = 0
  port_of (some name) =
      if name.family == os.af_inet
      then name.port
      else if name.family == os.af_inet6
      then name.port
      else 0

  unfoldable pub socket_local_port : ℤ → Io ℕ
  socket_local_port fd = do name ← call_getsockname os fd; return (port_of name)

  -- The candidate is closed, and the loop goes on.
  abbrev pub discard : ℤ → Io (Option (ℤ × ℕ))
  discard candidate = do call_close candidate; return none

  unfoldable pub listen_candidate : ℤ → ℤ → Io (Option (ℤ × ℕ))
  listen_candidate backlog candidate = do
    listening ← call_listen os candidate backlog
    if not (is_zero listening)
        then discard candidate
        else do port ← socket_local_port candidate; return (some (candidate, port))

  -- The result of `setsockopt` is not looked at.
  unfoldable pub configure_candidate : ℤ → Address → ℤ → Io (Option (ℤ × ℕ))
  unfolding listen_candidate
  configure_candidate backlog address candidate = do
    reused ← call_reuse_address os candidate
    non_blocking ← set_non_blocking os candidate
    if not non_blocking then discard candidate else do
      bound ← call_bind os candidate address
      if not (is_zero bound) then discard candidate else listen_candidate backlog candidate

  -- The body of the loop over the addresses: the socket with its port, or `none` where it continues.
  unfoldable pub attempt : ℤ → Address → Io (Option (ℤ × ℕ))
  unfolding configure_candidate
  attempt backlog address = do
    candidate ← call_socket os address.ai_family address.ai_socktype address.ai_protocol
    if candidate ==ℤ invalid then return none else configure_candidate backlog address candidate

  unfoldable pub try_addresses : ℤ → List Address → Io (Option (ℤ × ℕ))
  try_addresses backlog [] = return none
  try_addresses backlog (address ∷ rest) = do
    outcome ← attempt backlog address
    elim outcome [ none ↦ try_addresses backlog rest | some listening ↦ return (some listening) ]

  abbrev pub opened : TcpServerTransport → Option (ℤ × ℕ) → Status × TcpServerTransport
  opened t none = (open_failed, t)
  opened t (some listening) =
      (ok, record t { socket = listening.0; is_open = true; local_port = listening.1 })

  abbrev pub hints : Hints
  hints = record {
    ai_family = os.af_unspec;
    ai_socktype = os.sock_stream;
    ai_protocol = os.ipproto_tcp;
    ai_flags = os.ai_passive;
  }

  unfoldable pub resolve_and_listen :
      TcpServerTransport → Option (List Address) → Io (Status × TcpServerTransport)
  resolve_and_listen t none = return (open_failed, t)
  resolve_and_listen t (some addresses) = do
    outcome ← try_addresses t.options.backlog addresses
    call_freeaddrinfo addresses
    return (opened t outcome)

  unfoldable pub open_server : TcpServerTransport → Io (Status × TcpServerTransport)
  unfolding resolve_and_listen
  open_server t =
      if t.is_open
      then return (already_open, t)
      else if not (is_positive t.options.backlog)
      then return (invalid_argument, t)
      else if not socket_runtime_ready
      then return (open_failed, t)
      else do
        addresses ←
            call_getaddrinfo os (if is_empty t.options.host then none else some t.options.host)
              t.options.port hints
        resolve_and_listen t addresses

  unfoldable pub close_server : TcpServerTransport → Io (Status × TcpServerTransport)
  close_server t = do
    if t.socket ==ℤ invalid then return tt else call_close t.socket
    return (ok, record t { socket = invalid; is_open = false; local_port = 0 })

  -- After an `accept` that answered with a descriptor.
  unfoldable pub take_client : TcpServerTransport → ℤ → Io (Status × Option AcceptedTcpStream)
  unfolding new_accepted
  take_client t client = do
    non_blocking ← set_non_blocking os client
    if non_blocking
        then return (ok, some (new_accepted client t.options.read_timeout t.options.write_timeout))
        else do call_close client; return (open_failed, none)

  -- The listener is ready.
  unfoldable pub accept_client : TcpServerTransport → Io (Status × Option AcceptedTcpStream)
  unfolding take_client
  accept_client t = do
    client ← call_accept os t.socket
    if not (client ==ℤ invalid) then take_client t client else do
      error ← last_error os
      return (if is_would_block os error then would_block else open_failed, none)

  -- The stream that the `unique_ptr` held goes first. The result is what it holds after.
  unfoldable pub accept :
      Option AcceptedTcpStream → TcpServerTransport → Io (Status × Option AcceptedTcpStream)
  unfolding accept_client reset_connection
  accept connection t = do
    reset_connection connection
    if not t.is_open then return (not_open, none) else do
      waited ← wait_for_socket os t.socket true t.options.accept_timeout
      if is_timeout waited
          then return (timeout, none)
          else if not (is_ok waited) || not t.is_open
          then return (open_failed, none)
          else accept_client t
