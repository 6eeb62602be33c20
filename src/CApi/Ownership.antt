-- ===== src/CApi/Ownership.antt =====
-- A C program gives back the descriptors that its calls have taken.
use dlms_transport.Prelude.{ℕ, ℤ, ◌≡◌, refl, Bool, not, ◌||◌, if_cases, List, Option, none, some}
use dlms_transport.Buffer.{Bytes}
use dlms_transport.Os.{Os, History, live, IsClean, IsPosix}
use dlms_transport.Tcp.Stream.{TcpStreamTransport, TcpStreamTransportOptions, new_stream}
use dlms_transport.Tcp.Ownership.{lifetime_releases}
use dlms_transport.Udp.Transport.{UdpTransport, UdpTransportOptions, new_transport}
use dlms_transport.Udp.Ownership.{udp_lifetime_releases}
use dlms_transport.Serial.Port.{SerialTransport, SerialTransportOptions, new_port}
use dlms_transport.Serial.Ownership.{serial_lifetime_releases}
use dlms_transport.CApi.Codes.{valid_parity, valid_stop_bits}
use dlms_transport.CApi.Handles.{calls_of}
use dlms_transport.CApi.Tcp.{TcpOptions, tcp_cpp_options, tcp_create_with, tcp_create}
use dlms_transport.CApi.Udp.{UdpOptions, udp_cpp_options, udp_create}
use dlms_transport.CApi.Serial.{
  SerialOptions, serial_cpp_options, serial_create_with, serial_create,
}
use dlms_transport.CApi.Programs.{
  StreamCall, DatagramCall, tcp_use, tcp_program, udp_use, udp_program, serial_use, serial_program,
}
use dlms_transport.CApi.Refinement.{
  tcp_call, udp_call, serial_call, tcp_use-null, tcp_use-lifetime, udp_use-null, udp_use-lifetime,
  serial_use-null, serial_use-lifetime,
}

-- The log is clean, and the same descriptors are in use as before.
abbrev pub Restores : History → History → Type 0
Restores h k = IsClean k × ((j : ℤ) → live k j ≡ live h j)

module _ (os : Os) (posix : IsPosix os) (h : History) (c : IsClean h) where
  tcp_refused : (ds : List StreamCall) → Restores h (tcp_use os ds none h).1
  tcp_refused ds = rw (tcp_use-null os ds h) (c, λ j. refl)

  tcp_given :
      (ds : List StreamCall) (options : TcpStreamTransportOptions)
      → Restores h (tcp_use os ds (some (new_stream options)) h).1
  tcp_given ds options =
      rw (tcp_use-lifetime os ds options h)
        (lifetime_releases os posix options (calls_of tcp_call ds) h c)

  tcp_created :
      (ds : List StreamCall) (memory : Bool) (options : TcpOptions) (host : Option Bytes)
      → Restores h (tcp_use os ds (tcp_create_with memory options host).1 h).1
  tcp_created ds memory options none = tcp_refused ds
  tcp_created ds memory options (some host) =
      if_cases (λ (r : ℕ × Option TcpStreamTransport). Restores h (tcp_use os ds r.1 h).1) memory
        (λ e. tcp_given ds (tcp_cpp_options options host)) (λ e. tcp_refused ds)

  tcp_program-Restores :
      (ds : List StreamCall) (memory out_null : Bool) (options : Option TcpOptions)
      → Restores h (tcp_program os memory options out_null ds h).1
  unfolding tcp_program tcp_create
  tcp_program-Restores ds memory out_null none = tcp_refused ds
  tcp_program-Restores ds memory out_null (some options) =
      if_cases (λ (r : ℕ × Option TcpStreamTransport). Restores h (tcp_use os ds r.1 h).1) out_null
        (λ e. tcp_refused ds) (λ e. tcp_created ds memory options options.host)

  udp_refused : (ds : List DatagramCall) → Restores h (udp_use os ds none h).1
  udp_refused ds = rw (udp_use-null os ds h) (c, λ j. refl)

  udp_given :
      (ds : List DatagramCall) (options : UdpTransportOptions)
      → Restores h (udp_use os ds (some (new_transport options)) h).1
  udp_given ds options =
      rw (udp_use-lifetime os ds options h)
        (udp_lifetime_releases os posix options (calls_of udp_call ds) h c)

  udp_program-Restores :
      (ds : List DatagramCall) (memory out_null : Bool) (options : Option UdpOptions)
      → Restores h (udp_program os memory options out_null ds h).1
  unfolding udp_program udp_create
  udp_program-Restores ds memory out_null none = udp_refused ds
  udp_program-Restores ds memory out_null (some options) =
      if_cases (λ (r : ℕ × Option UdpTransport). Restores h (udp_use os ds r.1 h).1) out_null
        (λ e. udp_refused ds)
        λ e.
          if_cases (λ (r : ℕ × Option UdpTransport). Restores h (udp_use os ds r.1 h).1) memory
            (λ e. udp_given ds (udp_cpp_options options)) (λ e. udp_refused ds)

  serial_refused : (ds : List StreamCall) → Restores h (serial_use os ds none h).1
  serial_refused ds = rw (serial_use-null os ds h) (c, λ j. refl)

  serial_given :
      (ds : List StreamCall) (options : SerialTransportOptions)
      → Restores h (serial_use os ds (some (new_port options)) h).1
  serial_given ds options =
      rw (serial_use-lifetime os ds options h)
        (serial_lifetime_releases os posix options (calls_of serial_call ds) h c)

  serial_created :
      (ds : List StreamCall) (memory : Bool) (options : SerialOptions) (name : Option Bytes)
      → Restores h (serial_use os ds (serial_create_with memory options name).1 h).1
  serial_created ds memory options none = serial_refused ds
  serial_created ds memory options (some name) =
      if_cases (λ (r : ℕ × Option SerialTransport). Restores h (serial_use os ds r.1 h).1)
        (not (valid_parity options.parity) || not (valid_stop_bits options.stop_bits))
        (λ e. serial_refused ds)
        λ e.
          if_cases (λ (r : ℕ × Option SerialTransport). Restores h (serial_use os ds r.1 h).1)
            memory (λ e. serial_given ds (serial_cpp_options options name)) (λ e. serial_refused ds)

  serial_program-Restores :
      (ds : List StreamCall) (memory out_null : Bool) (options : Option SerialOptions)
      → Restores h (serial_program os memory options out_null ds h).1
  unfolding serial_program serial_create
  serial_program-Restores ds memory out_null none = serial_refused ds
  serial_program-Restores ds memory out_null (some options) =
      if_cases (λ (r : ℕ × Option SerialTransport). Restores h (serial_use os ds r.1 h).1) out_null
        (λ e. serial_refused ds) (λ e. serial_created ds memory options options.device_name)

-- From a log whose calls all work on descriptors in use, whatever a POSIX system answers, a C
-- program that creates a TCP client, a UDP transport or a serial transport, makes any calls with
-- what it has been given and destroys it, leaves a log whose calls all work on descriptors in use,
-- and the same descriptors in use as before. The options may be invalid or null, the pointer for the
-- handle may be null, and the memory may run out.
pub c_programs_release :
    (os : Os)
    → IsPosix os
    → (h : History) → IsClean h
    → (memory out_null : Bool) (tcp : Option TcpOptions) (udp : Option UdpOptions)
      (serial : Option SerialOptions) (streams : List StreamCall) (datagrams : List DatagramCall)
    → Restores h (tcp_program os memory tcp out_null streams h).1
      × Restores h (udp_program os memory udp out_null datagrams h).1
      × Restores h (serial_program os memory serial out_null streams h).1
c_programs_release os posix h c memory out_null tcp udp serial streams datagrams = (
  tcp_program-Restores os posix h c streams memory out_null tcp,
  udp_program-Restores os posix h c datagrams memory out_null udp,
  serial_program-Restores os posix h c streams memory out_null serial,
)
