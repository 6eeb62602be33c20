-- ===== src/Tests/System.antt =====
-- A small POSIX system for the runs: one descriptor of each kind, transfers of one byte.
use dlms_transport.Prelude.{
  ℤ, pos, ◌≡◌, refl, false, [], ◌∷◌, some, ◌==◌, if◌then◌else◌, if_cases, arith,
}
use dlms_transport.Os.{
  Os, History, Address, IsPosix, IsPatient, IsWilling, live, live-invalid, invalid,
}
use dlms_transport.Os.{call_send, call_select, call_write}

-- The descriptor if it is free, as the lowest free one would be.
abbrev pub lowest : ℤ → History → ℤ
lowest fd h = if live h fd then invalid else fd

lowest_fresh : (fd : ℤ) (h : History) → live h (lowest fd h) ≡ false
lowest_fresh fd h = if_cases (λ r. live h r ≡ false) (live h fd) (λ e. live-invalid h) (λ e. e)

abbrev pub loopback : Address
loopback = record { ai_family = 2; ai_socktype = 1; ai_protocol = 6; ai_addr = 127 }

abbrev pub small_os : Os
small_os = record {
  getaddrinfo = λ h host port hints. some (loopback ∷ []);
  socket = λ h family kind protocol. lowest (pos 3) h;
  getfl = λ h fd. pos 2;
  setfl = λ h fd flags. pos 0;
  reuse_address = λ h fd. pos 0;
  bind = λ h fd a. pos 0;
  listen = λ h fd backlog. pos 0;
  accept = λ h fd. lowest (pos 4) h;
  connect = λ h fd a. pos 0;
  socket_error = λ h fd. (pos 0, pos 0);
  getsockname = λ h fd. some (record { family = 2; port = 4059 });
  select = λ h fd r t. pos 1;
  pending = λ h fd. (pos 0, pos 1);
  recv = λ h fd len. if len == 0 then (pos 0, []) else (pos 1, 7 ∷ []);
  send = λ h fd xs len. if len == 0 then pos 0 else pos 1;
  open_device = λ h name. lowest (pos 5) h;
  read = λ h fd len. if len == 0 then (pos 0, []) else (pos 1, 7 ∷ []);
  write = λ h fd xs len. if len == 0 then pos 0 else pos 1;
  errno = λ h. 11;
  einprogress = 115;
  ewouldblock = 11;
  eagain = 11;
  o_nonblock = 2048;
  af_unspec = 0;
  af_inet = 2;
  af_inet6 = 10;
  sock_stream = 1;
  sock_dgram = 2;
  ipproto_tcp = 6;
  ipproto_udp = 17;
  ai_passive = 1;
}

pub small_os-IsPosix : IsPosix small_os
small_os-IsPosix = record {
  socket_fresh = λ h family kind protocol. lowest_fresh (pos 3) h;
  accept_fresh = λ h fd. lowest_fresh (pos 4) h;
  open_device_fresh = λ h name. lowest_fresh (pos 5) h;
  send_bound = λ h fd xs len n e. ground arith;
  write_bound = λ h fd xs len n e. ground arith;
  recv_bound = λ h fd len n e. ground arith;
  read_bound = λ h fd len n e. ground arith;
}

pub small_os-IsPatient : IsPatient small_os (λ h. 0)
unfolding call_send call_select call_write
small_os-IsPatient = record {
  select_patience = λ h fd r t. omega arith;
  send_patience = λ h fd xs len. omega arith;
  send_refused = λ h fd xs len e. ground arith;
  write_patience = λ h fd xs len. omega arith;
  write_refused = λ h fd xs len e. ground arith;
}

pub small_os-IsWilling : IsWilling small_os
small_os-IsWilling = record {
  select_ready = λ h fd r t. refl;
  send_moves = λ h fd xs len e. ground arith;
  refusal_is_would_block = λ h. refl;
}
