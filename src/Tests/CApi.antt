-- ===== src/Tests/CApi.antt =====
-- Runs of the C functions.
use dlms_transport.Prelude.{
  ℕ, ◌+◌, ◌*◌, ◌≤◌, ◌≡◌, refl, true, false, List, [], ◌∷◌, none, some, arith,
}
use dlms_transport.Buffer.{bytes}
use dlms_transport.Tcp.Session as Tcp
use dlms_transport.Udp.Session as Udp
use dlms_transport.Serial.Session as Serial
use dlms_transport.Timer.Scheduler.{Clock, IsSteady, sleep_for}
use dlms_transport.CApi.Codes.{code_ok, to_c_status}
use dlms_transport.CApi.Creation.{IsReported, create_reports}
use dlms_transport.CApi.Handles.{calls_of}
use dlms_transport.CApi.Tcp.{TcpOptions, tcp_create}
use dlms_transport.CApi.Udp.{UdpOptions, udp_create}
use dlms_transport.CApi.Serial.{SerialOptions, serial_create}
use dlms_transport.CApi.Timer.{
  timer_create, timer_sleep_for, timer_sleeps, timer_monotonic_ms, timer_waits,
}
use dlms_transport.CApi.Programs.{
  StreamCall, calls_open, calls_close, calls_is_open, calls_read_some, calls_write_all,
  DatagramCall, opens_udp, closes_udp, calls_local_port, calls_send, calls_receive, tcp_program,
  udp_program, serial_program,
}
use dlms_transport.CApi.Refinement.{tcp_call, udp_call, serial_call}
use dlms_transport.CApi.Lifetimes.{SameTcp, SameUdp, SameSerial, c_programs_refine}
use dlms_transport.Tcp.Stream.{TcpStreamTransportOptions}
use dlms_transport.Udp.Transport.{UdpTransportOptions}
use dlms_transport.Serial.Port.{SerialTransportOptions, even_parity, one_stop_bit}
use dlms_transport.CApi.Ownership.{Restores, c_programs_release}
use dlms_transport.Tests.System.{small_os, small_os-IsPosix}

abbrev tcp : TcpOptions
tcp = record {
  host = some (49 ∷ []);
  port = 4059;
  connect_timeout_ms = 5000;
  read_timeout_ms = 5000;
  write_timeout_ms = 1500;
}

abbrev udp : UdpOptions
udp = record {
  local_host = none;
  local_port = 0;
  remote_host = some (49 ∷ []);
  remote_port = 4059;
  receive_timeout_ms = 5000;
  send_timeout_ms = 1500;
}

abbrev serial : SerialOptions
serial = record {
  device_name = some (47 ∷ []);
  baud_rate = 9600;
  data_bits = 8;
  parity = 1;
  stop_bits = 0;
  read_timeout_ms = 5000;
  write_timeout_ms = 1500;
}

abbrev streams : List StreamCall
streams =
    calls_open
    ∷ calls_is_open
    ∷ calls_write_all 9 (bytes (1 ∷ 2 ∷ []))
    ∷ calls_read_some (record { is_null = false; size = 4 }) true
    ∷ calls_read_some (record { is_null = false; size = 4 }) false
    ∷ calls_close
    ∷ calls_open
    ∷ []

abbrev datagrams : List DatagramCall
datagrams =
    opens_udp
    ∷ calls_local_port
    ∷ calls_send (bytes (1 ∷ 2 ∷ []))
    ∷ calls_receive (record { is_null = false; size = 4 }) false
    ∷ closes_udp
    ∷ []

abbrev cpp_tcp : TcpStreamTransportOptions
cpp_tcp = record {
  host = 49 ∷ [];
  port = 4059;
  connect_timeout = record { milliseconds = 5000 };
  read_timeout = record { milliseconds = 5000 };
  write_timeout = record { milliseconds = 1500 };
}

abbrev cpp_udp : UdpTransportOptions
cpp_udp = record {
  local_host = 48 ∷ 46 ∷ 48 ∷ 46 ∷ 48 ∷ 46 ∷ 48 ∷ [];
  local_port = 0;
  remote_host = 49 ∷ [];
  remote_port = 4059;
  receive_timeout = record { milliseconds = 5000 };
  send_timeout = record { milliseconds = 1500 };
}

abbrev cpp_serial : SerialTransportOptions
cpp_serial = record {
  device_name = 47 ∷ [];
  baud_rate = 9600;
  data_bits = 8;
  parity = even_parity;
  stop_bits = one_stop_bit;
  read_timeout = record { milliseconds = 5000 };
  write_timeout = record { milliseconds = 1500 };
}

tcp-SameTcp : SameTcp tcp cpp_tcp
tcp-SameTcp = record {
  host = refl;
  port = refl;
  connect_timeout = refl;
  read_timeout = refl;
  write_timeout = refl;
}

udp-SameUdp : SameUdp udp cpp_udp
udp-SameUdp = record {
  local_host = refl;
  local_port = refl;
  remote_host = refl;
  remote_port = refl;
  receive_timeout = refl;
  send_timeout = refl;
}

serial-SameSerial : SameSerial serial cpp_serial
serial-SameSerial = record {
  device_name = refl;
  baud_rate = refl;
  data_bits = refl;
  parity = refl;
  stop_bits = refl;
  read_timeout = refl;
  write_timeout = refl;
}

c_programs_refine_example :
    (tcp_program small_os true (some tcp) false streams []
      ≡ (none, (Tcp.lifetime small_os cpp_tcp (calls_of tcp_call streams) []).1))
    × (udp_program small_os true (some udp) false datagrams []
        ≡ (none, (Udp.lifetime small_os cpp_udp (calls_of udp_call datagrams) []).1))
    × (serial_program small_os true (some serial) false streams []
        ≡ (none, (Serial.lifetime small_os cpp_serial (calls_of serial_call streams) []).1))
c_programs_refine_example =
    c_programs_refine small_os tcp cpp_tcp udp cpp_udp serial cpp_serial streams datagrams []
      tcp-SameTcp udp-SameUdp serial-SameSerial

c_programs_release_example :
    Restores [] (tcp_program small_os true (some tcp) false streams []).1
    × Restores [] (udp_program small_os true (some udp) false datagrams []).1
    × Restores [] (serial_program small_os true (some serial) false streams []).1
c_programs_release_example =
    c_programs_release small_os small_os-IsPosix [] tt true false (some tcp) (some udp)
      (some serial) streams datagrams

-- A clock with a thousand ticks in a millisecond, whose sleeps take half a millisecond longer.
abbrev slow_clock : Clock
slow_clock = record {
  World = ℕ;
  ticks = 1000;
  now = λ w. w;
  sleep_for = λ milliseconds w. w + milliseconds * 1000 + 500;
}

slow_clock-IsSteady : IsSteady slow_clock
slow_clock-IsSteady = record { some_ticks = omega arith; sleeps = λ milliseconds w. omega arith }

abbrev sleeps : List ℕ
sleeps = 20 ∷ 0 ∷ 5 ∷ []

timer_waits_example :
    let made = timer_create true false in
    let slept = timer_sleeps slow_clock made.1 sleeps 7 in
    (made.0 ≡ code_ok)
    × (slept.0 ≡ true)
    × (before after : ℕ) × (timer_monotonic_ms slow_clock made.1 false 7 ≡ (code_ok, some before))
    × (timer_monotonic_ms slow_clock made.1 false slept.1 ≡ (code_ok, some after))
    × (before + 25 ≤ after)
unfolding timer_create timer_sleeps timer_sleep_for sleep_for to_c_status
timer_waits_example = timer_waits slow_clock slow_clock-IsSteady sleeps 7 (omega arith)

-- A serial port without a name.
create_reports_example :
    IsReported (tcp_create true (some tcp) false)
    × IsReported (udp_create true none false)
    × IsReported (serial_create true (some (record serial { device_name = none })) false)
create_reports_example =
    create_reports true false (some tcp) none (some (record serial { device_name = none }))
