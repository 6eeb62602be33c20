-- ===== src/CApi/Refinement.antt =====
-- A C program does to the system what the C++ object behind its handle does.
use dlms_transport.Prelude.{
  ◌≡◌, refl, ap, ◌∙◌, true, false, if◌then◌else◌, List, [], ◌∷◌, Option, none, some,
}
use dlms_transport.Os.{Os, History, ◌>>=◌, return}
use dlms_transport.Tcp.Stream.{TcpStreamTransport, TcpStreamTransportOptions, new_stream}
use dlms_transport.Tcp.Session as Tcp
use dlms_transport.Udp.Transport.{UdpTransport, UdpTransportOptions, new_transport}
use dlms_transport.Udp.Session as Udp
use dlms_transport.Serial.Port.{SerialTransport, SerialTransportOptions, new_port}
use dlms_transport.Serial.Session as Serial
use dlms_transport.CApi.Handles.{c_run-null, calls_of, behind, steps, c_run-steps}
use dlms_transport.CApi.Tcp.{tcp_destroy, tcp_open, tcp_close, tcp_read_some, tcp_write_all}
use dlms_transport.CApi.Udp.{
  udp_destroy, udp_open, udp_close, udp_local_port, udp_send, udp_receive,
}
use dlms_transport.CApi.Serial.{
  serial_destroy, serial_open, serial_close, serial_read_some, serial_write_all,
}
use dlms_transport.CApi.Programs.{
  StreamCall, calls_open, calls_close, calls_is_open, calls_read_some, calls_write_all,
  DatagramCall, opens_udp, closes_udp, calls_local_port, calls_send, calls_receive, tcp_step,
  tcp_use, udp_step, udp_use, serial_step, serial_use,
}

-- The C++ call that a C call comes to, if it comes to one.
abbrev pub tcp_call : StreamCall → Option Tcp.Call
tcp_call calls_open = some Tcp.opens
tcp_call calls_close = some Tcp.closes
tcp_call calls_is_open = none
tcp_call (calls_read_some output null) = if null then none else some (Tcp.reads output)
tcp_call (calls_write_all fuel input) = some (Tcp.writes fuel input)

abbrev pub udp_call : DatagramCall → Option Udp.Call
udp_call opens_udp = some Udp.opens
udp_call closes_udp = some Udp.closes
udp_call calls_local_port = some Udp.asks_port
udp_call (calls_send input) = some (Udp.sends input)
udp_call (calls_receive output null) = if null then none else some (Udp.receives output)

abbrev pub serial_call : StreamCall → Option Serial.Call
serial_call calls_open = some Serial.opens
serial_call calls_close = some Serial.closes
serial_call calls_is_open = none
serial_call (calls_read_some output null) = if null then none else some (Serial.reads output)
serial_call (calls_write_all fuel input) = some (Serial.writes fuel input)

module _ (os : Os) where
  tcp_step-behind :
      (d : StreamCall) (t : TcpStreamTransport) (h : History)
      → tcp_step os d (some t) h ≡ behind (Tcp.step os) (tcp_call d) t h
  unfolding tcp_step behind Tcp.step ◌>>=◌ return tcp_open tcp_close tcp_read_some tcp_write_all
  tcp_step-behind calls_open t h = refl
  tcp_step-behind calls_close t h = refl
  tcp_step-behind calls_is_open t h = refl
  tcp_step-behind (calls_read_some output true) t h = refl
  tcp_step-behind (calls_read_some output false) t h = refl
  tcp_step-behind (calls_write_all fuel input) t h = refl

  tcp_step-null : (d : StreamCall) (h : History) → tcp_step os d none h ≡ (none, h)
  unfolding tcp_step ◌>>=◌ return tcp_open tcp_close tcp_read_some tcp_write_all
  tcp_step-null calls_open h = refl
  tcp_step-null calls_close h = refl
  tcp_step-null calls_is_open h = refl
  tcp_step-null (calls_read_some output null) h = refl
  tcp_step-null (calls_write_all fuel input) h = refl

  tcp_steps :
      (cs : List Tcp.Call) (t : TcpStreamTransport) (h : History)
      → steps (Tcp.step os) cs t h ≡ Tcp.run os cs t h
  unfolding steps Tcp.run ◌>>=◌ return
  tcp_steps [] t h = refl
  tcp_steps (c ∷ cs) t h = tcp_steps cs (Tcp.step os c t h).0 (Tcp.step os c t h).1

  pub tcp_use-null : (ds : List StreamCall) (h : History) → tcp_use os ds none h ≡ (none, h)
  unfolding tcp_use tcp_destroy ◌>>=◌ return
  tcp_use-null ds h = ap (λ r. tcp_destroy os r.0 r.1) (c_run-null (tcp_step os) tcp_step-null ds h)

  pub tcp_use-lifetime :
      (ds : List StreamCall) (options : TcpStreamTransportOptions) (h : History)
      → tcp_use os ds (some (new_stream options)) h
        ≡ (none, (Tcp.lifetime os options (calls_of tcp_call ds) h).1)
  unfolding tcp_use tcp_destroy Tcp.lifetime ◌>>=◌ return
  tcp_use-lifetime ds options h =
      ap (λ r. tcp_destroy os r.0 r.1)
        (c_run-steps (tcp_step os) (Tcp.step os) tcp_call tcp_step-behind ds (new_stream options) h
          ∙ ap (λ r. (some r.0, r.1)) (tcp_steps (calls_of tcp_call ds) (new_stream options) h))

module _ (os : Os) where
  udp_step-behind :
      (d : DatagramCall) (t : UdpTransport) (h : History)
      → udp_step os d (some t) h ≡ behind (Udp.step os) (udp_call d) t h
  unfolding udp_step behind Udp.step ◌>>=◌ return udp_open udp_close udp_local_port udp_send
      udp_receive
  udp_step-behind opens_udp t h = refl
  udp_step-behind closes_udp t h = refl
  udp_step-behind calls_local_port t h = refl
  udp_step-behind (calls_send input) t h = refl
  udp_step-behind (calls_receive output true) t h = refl
  udp_step-behind (calls_receive output false) t h = refl

  udp_step-null : (d : DatagramCall) (h : History) → udp_step os d none h ≡ (none, h)
  unfolding udp_step ◌>>=◌ return udp_open udp_close udp_local_port udp_send udp_receive
  udp_step-null opens_udp h = refl
  udp_step-null closes_udp h = refl
  udp_step-null calls_local_port h = refl
  udp_step-null (calls_send input) h = refl
  udp_step-null (calls_receive output null) h = refl

  udp_steps :
      (cs : List Udp.Call) (t : UdpTransport) (h : History)
      → steps (Udp.step os) cs t h ≡ Udp.run os cs t h
  unfolding steps Udp.run ◌>>=◌ return
  udp_steps [] t h = refl
  udp_steps (c ∷ cs) t h = udp_steps cs (Udp.step os c t h).0 (Udp.step os c t h).1

  pub udp_use-null : (ds : List DatagramCall) (h : History) → udp_use os ds none h ≡ (none, h)
  unfolding udp_use udp_destroy ◌>>=◌ return
  udp_use-null ds h = ap (λ r. udp_destroy os r.0 r.1) (c_run-null (udp_step os) udp_step-null ds h)

  pub udp_use-lifetime :
      (ds : List DatagramCall) (options : UdpTransportOptions) (h : History)
      → udp_use os ds (some (new_transport options)) h
        ≡ (none, (Udp.lifetime os options (calls_of udp_call ds) h).1)
  unfolding udp_use udp_destroy Udp.lifetime ◌>>=◌ return
  udp_use-lifetime ds options h =
      ap (λ r. udp_destroy os r.0 r.1)
        (c_run-steps (udp_step os) (Udp.step os) udp_call udp_step-behind ds (new_transport options)
            h
          ∙ ap (λ r. (some r.0, r.1)) (udp_steps (calls_of udp_call ds) (new_transport options) h))

module _ (os : Os) where
  serial_step-behind :
      (d : StreamCall) (t : SerialTransport) (h : History)
      → serial_step os d (some t) h ≡ behind (Serial.step os) (serial_call d) t h
  unfolding serial_step behind Serial.step ◌>>=◌ return serial_open serial_close serial_read_some
      serial_write_all
  serial_step-behind calls_open t h = refl
  serial_step-behind calls_close t h = refl
  serial_step-behind calls_is_open t h = refl
  serial_step-behind (calls_read_some output true) t h = refl
  serial_step-behind (calls_read_some output false) t h = refl
  serial_step-behind (calls_write_all fuel input) t h = refl

  serial_step-null : (d : StreamCall) (h : History) → serial_step os d none h ≡ (none, h)
  unfolding serial_step ◌>>=◌ return serial_open serial_close serial_read_some serial_write_all
  serial_step-null calls_open h = refl
  serial_step-null calls_close h = refl
  serial_step-null calls_is_open h = refl
  serial_step-null (calls_read_some output null) h = refl
  serial_step-null (calls_write_all fuel input) h = refl

  serial_steps :
      (cs : List Serial.Call) (t : SerialTransport) (h : History)
      → steps (Serial.step os) cs t h ≡ Serial.run os cs t h
  unfolding steps Serial.run ◌>>=◌ return
  serial_steps [] t h = refl
  serial_steps (c ∷ cs) t h = serial_steps cs (Serial.step os c t h).0 (Serial.step os c t h).1

  pub serial_use-null : (ds : List StreamCall) (h : History) → serial_use os ds none h ≡ (none, h)
  unfolding serial_use serial_destroy ◌>>=◌ return
  serial_use-null ds h =
      ap (λ r. serial_destroy os r.0 r.1) (c_run-null (serial_step os) serial_step-null ds h)

  pub serial_use-lifetime :
      (ds : List StreamCall) (options : SerialTransportOptions) (h : History)
      → serial_use os ds (some (new_port options)) h
        ≡ (none, (Serial.lifetime os options (calls_of serial_call ds) h).1)
  unfolding serial_use serial_destroy Serial.lifetime ◌>>=◌ return
  serial_use-lifetime ds options h =
      ap (λ r. serial_destroy os r.0 r.1)
        (c_run-steps (serial_step os) (Serial.step os) serial_call serial_step-behind ds
            (new_port options) h
          ∙ ap (λ r. (some r.0, r.1)) (serial_steps (calls_of serial_call ds) (new_port options) h))
