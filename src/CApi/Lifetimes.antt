-- ===== src/CApi/Lifetimes.antt =====
-- A C program does to the system what the C++ object behind its handle does, and nothing without
-- one.
use dlms_transport.Prelude.{
  ℕ, ◌≡◌, refl, sym, ap, ◌∙◌, true, false, List, [], ◌∷◌, Option, none, some,
}
use dlms_transport.Buffer.{Bytes}
use dlms_transport.Os.{Os, History}
use dlms_transport.Tcp.Session as Tcp
use dlms_transport.Udp.Session as Udp
use dlms_transport.Tcp.Stream.{TcpStreamTransportOptions}
use dlms_transport.Udp.Transport.{UdpTransportOptions}
use dlms_transport.Serial.Port.{
  SerialTransportOptions, SerialParity, no_parity, even_parity, odd_parity, SerialStopBits,
  one_stop_bit, two_stop_bits, new_port,
}
use dlms_transport.Serial.Session as Serial
use dlms_transport.CApi.Codes.{to_cpp_parity, to_cpp_stop_bits, valid_parity, valid_stop_bits}
use dlms_transport.CApi.Handles.{calls_of}
use dlms_transport.CApi.Tcp.{TcpOptions, tcp_cpp_options, tcp_create_with, tcp_create}
use dlms_transport.CApi.Udp.{UdpOptions, string_or, udp_cpp_options, udp_create}
use dlms_transport.CApi.Serial.{SerialOptions, serial_cpp_options, serial_create}
use dlms_transport.CApi.Programs.{
  StreamCall, DatagramCall, tcp_use, tcp_program, udp_program, serial_use, serial_program,
}
use dlms_transport.CApi.Refinement.{
  tcp_call, udp_call, serial_call, tcp_use-lifetime, udp_use-lifetime, serial_use-lifetime,
}

tcp_program_refines :
    (os : Os) (options : TcpOptions) (host : Bytes) (ds : List StreamCall) (h : History)
    → options.host ≡ some host
    → tcp_program os true (some options) false ds h
      ≡ (none, (Tcp.lifetime os (tcp_cpp_options options host) (calls_of tcp_call ds) h).1)
unfolding tcp_program tcp_create
tcp_program_refines os options host ds h e =
    ap (λ o. tcp_use os ds (tcp_create_with true options o).1 h) e
    ∙ tcp_use-lifetime os ds (tcp_cpp_options options host) h

udp_program_refines :
    (os : Os) (options : UdpOptions) (ds : List DatagramCall) (h : History)
    → udp_program os true (some options) false ds h
      ≡ (none, (Udp.lifetime os (udp_cpp_options options) (calls_of udp_call ds) h).1)
unfolding udp_program udp_create
udp_program_refines os options ds h = udp_use-lifetime os ds (udp_cpp_options options) h

serial_made :
    (options : SerialOptions) (name : Bytes)
    → options.device_name ≡ some name
    → valid_parity options.parity ≡ true
    → valid_stop_bits options.stop_bits ≡ true
    → (serial_create true (some options) false).1
      ≡ some (new_port (serial_cpp_options options name))
unfolding serial_create
serial_made options name e p q = rw (e, p, q) refl

serial_program_refines :
    (os : Os) (options : SerialOptions) (name : Bytes) (ds : List StreamCall) (h : History)
    → options.device_name ≡ some name
    → valid_parity options.parity ≡ true
    → valid_stop_bits options.stop_bits ≡ true
    → serial_program os true (some options) false ds h
      ≡ (none, (Serial.lifetime os (serial_cpp_options options name) (calls_of serial_call ds) h).1)
unfolding serial_program
serial_program_refines os options name ds h e p q =
    ap (λ x. serial_use os ds x h) (serial_made options name e p q)
    ∙ serial_use-lifetime os ds (serial_cpp_options options name) h

-- Options of C and of C++ that say the same.
pub record SameTcp (c : TcpOptions) (o : TcpStreamTransportOptions) : Type 0 where
  pub host : c.host ≡ some o.host
  pub port : c.port ≡ o.port
  pub connect_timeout : c.connect_timeout_ms ≡ o.connect_timeout.milliseconds
  pub read_timeout : c.read_timeout_ms ≡ o.read_timeout.milliseconds
  pub write_timeout : c.write_timeout_ms ≡ o.write_timeout.milliseconds

-- A string that is null stands for a default.
abbrev pub SameHost : Bytes → Option Bytes → Bytes → Type 0
SameHost default none host = host ≡ default
SameHost default (some given) host = host ≡ given

pub record SameUdp (c : UdpOptions) (o : UdpTransportOptions) : Type 0 where
  pub local_host :
      SameHost (b'0' ∷ b'.' ∷ b'0' ∷ b'.' ∷ b'0' ∷ b'.' ∷ b'0' ∷ []) c.local_host o.local_host
  pub local_port : c.local_port ≡ o.local_port
  pub remote_host : SameHost [] c.remote_host o.remote_host
  pub remote_port : c.remote_port ≡ o.remote_port
  pub receive_timeout : c.receive_timeout_ms ≡ o.receive_timeout.milliseconds
  pub send_timeout : c.send_timeout_ms ≡ o.send_timeout.milliseconds

abbrev pub parity_code : SerialParity → ℕ
parity_code no_parity = 0
parity_code even_parity = 1
parity_code odd_parity = 2

abbrev pub stop_bits_code : SerialStopBits → ℕ
stop_bits_code one_stop_bit = 0
stop_bits_code two_stop_bits = 1

pub record SameSerial (c : SerialOptions) (o : SerialTransportOptions) : Type 0 where
  pub device_name : c.device_name ≡ some o.device_name
  pub baud_rate : c.baud_rate ≡ o.baud_rate
  pub data_bits : c.data_bits ≡ o.data_bits
  pub parity : c.parity ≡ parity_code o.parity
  pub stop_bits : c.stop_bits ≡ stop_bits_code o.stop_bits
  pub read_timeout : c.read_timeout_ms ≡ o.read_timeout.milliseconds
  pub write_timeout : c.write_timeout_ms ≡ o.write_timeout.milliseconds

SameTcp-converted :
    (c : TcpOptions) (o : TcpStreamTransportOptions) → SameTcp c o → tcp_cpp_options c o.host ≡ o
SameTcp-converted c o p = cc (p.port, p.connect_timeout, p.read_timeout, p.write_timeout)

host-SameHost :
    (default : Bytes) (given : Option Bytes) (host : Bytes)
    → SameHost default given host
    → string_or default given ≡ host
host-SameHost default none host e = sym e
host-SameHost default (some given) host e = sym e

SameUdp-converted : (c : UdpOptions) (o : UdpTransportOptions) → SameUdp c o → udp_cpp_options c ≡ o
SameUdp-converted c o p = cc (
  host-SameHost _ c.local_host o.local_host p.local_host,
  host-SameHost _ c.remote_host o.remote_host p.remote_host,
  p.local_port,
  p.remote_port,
  p.receive_timeout,
  p.send_timeout,
)

parity_code-read :
    (p : SerialParity) → (to_cpp_parity (parity_code p) ≡ p) × (valid_parity (parity_code p) ≡ true)
unfolding to_cpp_parity
parity_code-read no_parity = (refl, refl)
parity_code-read even_parity = (refl, refl)
parity_code-read odd_parity = (refl, refl)

stop_bits_code-read :
    (b : SerialStopBits)
    → (to_cpp_stop_bits (stop_bits_code b) ≡ b) × (valid_stop_bits (stop_bits_code b) ≡ true)
unfolding to_cpp_stop_bits
stop_bits_code-read one_stop_bit = (refl, refl)
stop_bits_code-read two_stop_bits = (refl, refl)

SameSerial-converted :
    (c : SerialOptions) (o : SerialTransportOptions)
    → SameSerial c o
    → serial_cpp_options c o.device_name ≡ o
SameSerial-converted c o p = cc (
  p.baud_rate,
  p.data_bits,
  ap to_cpp_parity p.parity ∙ (parity_code-read o.parity).0,
  ap to_cpp_stop_bits p.stop_bits ∙ (stop_bits_code-read o.stop_bits).0,
  p.read_timeout,
  p.write_timeout,
)

-- For options of C and of C++ that say the same, field by field (a host that is null in C is 0.0.0.0
-- for the local one of UDP, and the empty string for the remote one; no other name is null; the
-- parities and the numbers of stop bits are those of the numbers 0, 1, 2 and 0, 1), if the memory does
-- not run out: a C program that creates a TCP client, a UDP transport or a serial transport, makes any
-- calls with the handle and destroys it leaves the same log of system calls as the life of the C++
-- object on which the calls are made. Calls that ask only whether it is open, and reads without a
-- `bytes_read`, do not come to any call.
pub c_programs_refine :
    (os : Os) (c_tcp : TcpOptions) (tcp : TcpStreamTransportOptions) (c_udp : UdpOptions)
    (udp : UdpTransportOptions) (c_serial : SerialOptions) (serial : SerialTransportOptions)
    (streams : List StreamCall) (datagrams : List DatagramCall) (h : History)
    → SameTcp c_tcp tcp
    → SameUdp c_udp udp
    → SameSerial c_serial serial
    → (tcp_program os true (some c_tcp) false streams h
        ≡ (none, (Tcp.lifetime os tcp (calls_of tcp_call streams) h).1))
      × (udp_program os true (some c_udp) false datagrams h
          ≡ (none, (Udp.lifetime os udp (calls_of udp_call datagrams) h).1))
      × (serial_program os true (some c_serial) false streams h
          ≡ (none, (Serial.lifetime os serial (calls_of serial_call streams) h).1))
c_programs_refine os c_tcp tcp c_udp udp c_serial serial streams datagrams h p q r = (
  tcp_program_refines os c_tcp tcp.host streams h p.host
      ∙ ap (λ o. (none, (Tcp.lifetime os o (calls_of tcp_call streams) h).1))
          (SameTcp-converted c_tcp tcp p),
  udp_program_refines os c_udp datagrams h
      ∙ ap (λ o. (none, (Udp.lifetime os o (calls_of udp_call datagrams) h).1))
          (SameUdp-converted c_udp udp q),
  serial_program_refines os c_serial serial.device_name streams h r.device_name
        (ap valid_parity r.parity ∙ (parity_code-read serial.parity).1)
        (ap valid_stop_bits r.stop_bits ∙ (stop_bits_code-read serial.stop_bits).1)
      ∙ ap (λ o. (none, (Serial.lifetime os o (calls_of serial_call streams) h).1))
          (SameSerial-converted c_serial serial r),
)
