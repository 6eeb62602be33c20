-- ===== src/Udp/Socket.antt =====
-- The helpers of udp_transport.cpp, in their POSIX branch. Its `SetNonBlocking`, `ToTimeval` and
-- `WaitForSocket` repeat those of tcp_stream_transport.cpp, and are the ones of Tcp.Socket.
use dlms_transport.Prelude.{
  ℕ, ℤ, Bool, not, ◌||◌, ◌==◌, if◌then◌else◌, is_zero, is_negative, to_size, List, [], is_empty,
  Option, none, some,
}
use dlms_transport.Buffer.{Bytes}
use dlms_transport.Os.{
  Os, Io, ◌>>=◌, return, Address, Hints, SockName, call_getaddrinfo, call_getsockname, call_pending,
}

abbrev pub is_would_block : Os → ℕ → Bool
is_would_block os error = error == os.ewouldblock || error == os.eagain

module _ (os : Os) where
  -- `none` where the function returns false.
  unfoldable pub pending_datagram_size : ℤ → Io (Option ℕ)
  pending_datagram_size fd = do
    answer ← call_pending os fd
    return
        (if not (is_zero answer.0) || is_negative answer.1 then none else some (to_size answer.1))

  abbrev pub hints : ℕ → ℕ → Hints
  hints family flags = record {
    ai_family = family;
    ai_socktype = os.sock_dgram;
    ai_protocol = os.ipproto_udp;
    ai_flags = flags;
  }

  -- A null pointer is `[]`.
  abbrev pub addresses_or_null : Option (List Address) → List Address
  addresses_or_null none = []
  addresses_or_null (some addresses) = addresses

  unfoldable pub resolve_udp_address : Bytes → ℕ → ℕ → ℕ → Io (List Address)
  resolve_udp_address host port family flags = do
    answer ←
        call_getaddrinfo os (if is_empty host then none else some host) port (hints family flags)
    return (addresses_or_null answer)

  abbrev pub port_of : Option SockName → Option ℕ
  port_of none = none
  port_of (some name) =
      if name.family == os.af_inet
      then some name.port
      else if name.family == os.af_inet6
      then some name.port
      else none

  unfoldable pub bound_local_port : ℤ → Io (Option ℕ)
  bound_local_port fd = do name ← call_getsockname os fd; return (port_of name)
