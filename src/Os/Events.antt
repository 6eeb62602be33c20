-- ===== src/Os/Events.antt =====
-- The system calls that the transports make, as the entries of a log, and the system's answers.
-- The system is not part of the repository: `Os` is a parameter, with one answer function for each
-- call. An answer may depend on all that was called before, so every behaviour is covered.
use dlms_transport.Prelude.{ℕ, ℤ, Bool, List, Option}
use dlms_transport.Buffer.{Bytes}

-- One `addrinfo` node. The list of nodes stands for the linked list, `[]` for a null pointer.
pub record Address : Type 0 where
  pub ai_family : ℕ
  pub ai_socktype : ℕ
  pub ai_protocol : ℕ
  pub ai_addr : ℕ

-- The fields of the `hints` that the code sets.
pub record Hints : Type 0 where
  pub ai_family : ℕ
  pub ai_socktype : ℕ
  pub ai_protocol : ℕ
  pub ai_flags : ℕ

pub record Timeval : Type 0 where
  pub tv_sec : ℕ
  pub tv_usec : ℕ

-- What `getsockname` stores: the family, and the port in host order.
pub record SockName : Type 0 where
  pub family : ℕ
  pub port : ℕ

-- A call with its arguments, and last what it answered. A node is null or a host, a service is
-- the port that `snprintf` prints.
pub data Event : Type 0 where
  getaddrinfo : Option Bytes → ℕ → Hints → Option (List Address) → Event
  freeaddrinfo : List Address → Event
  socket : ℕ → ℕ → ℕ → ℤ → Event
  getfl : ℤ → ℤ → Event
  setfl : ℤ → ℕ → ℤ → Event
  reuse_address : ℤ → ℤ → Event
  bind : ℤ → Address → ℤ → Event
  listen : ℤ → ℤ → ℤ → Event
  accept : ℤ → ℤ → Event
  connect : ℤ → Address → ℤ → Event
  socket_error : ℤ → ℤ × ℤ → Event
  getsockname : ℤ → Option SockName → Event
  select : ℤ → Bool → Timeval → ℤ → Event
  pending : ℤ → ℤ × ℤ → Event
  recv : ℤ → ℕ → ℤ × Bytes → Event
  send : ℤ → Bytes → ℕ → ℤ → Event
  open_device : Bytes → ℤ → Event
  read : ℤ → ℕ → ℤ × Bytes → Event
  write : ℤ → Bytes → ℕ → ℤ → Event
  close : ℤ → Event

-- Newest call first.
abbrev pub History : Type 0
History = List Event

-- The answers, and the constants of the system headers. `errno` is the error of the last call.
pub record Os : Type 0 where
  pub getaddrinfo : History → Option Bytes → ℕ → Hints → Option (List Address)
  pub socket : History → ℕ → ℕ → ℕ → ℤ
  pub getfl : History → ℤ → ℤ
  pub setfl : History → ℤ → ℕ → ℤ
  pub reuse_address : History → ℤ → ℤ
  pub bind : History → ℤ → Address → ℤ
  pub listen : History → ℤ → ℤ → ℤ
  pub accept : History → ℤ → ℤ
  pub connect : History → ℤ → Address → ℤ
  pub socket_error : History → ℤ → ℤ × ℤ
  pub getsockname : History → ℤ → Option SockName
  pub select : History → ℤ → Bool → Timeval → ℤ
  pub pending : History → ℤ → ℤ × ℤ
  pub recv : History → ℤ → ℕ → ℤ × Bytes
  pub send : History → ℤ → Bytes → ℕ → ℤ
  pub open_device : History → Bytes → ℤ
  pub read : History → ℤ → ℕ → ℤ × Bytes
  pub write : History → ℤ → Bytes → ℕ → ℤ
  pub errno : History → ℕ
  pub einprogress : ℕ
  pub ewouldblock : ℕ
  pub eagain : ℕ
  pub o_nonblock : ℕ
  pub af_unspec : ℕ
  pub af_inet : ℕ
  pub af_inet6 : ℕ
  pub sock_stream : ℕ
  pub sock_dgram : ℕ
  pub ipproto_tcp : ℕ
  pub ipproto_udp : ℕ
  pub ai_passive : ℕ
