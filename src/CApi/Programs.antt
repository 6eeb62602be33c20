-- ===== src/CApi/Programs.antt =====
-- What a C program does with one handle: create, any calls, destroy.
use dlms_transport.Prelude.{ℕ, Bool, List, Option}
use dlms_transport.Buffer.{Input, Output}
use dlms_transport.Os.{Os, Io, ◌>>=◌, return}
use dlms_transport.Tcp.Stream.{TcpStreamTransport}
use dlms_transport.Udp.Transport.{UdpTransport}
use dlms_transport.Serial.Port.{SerialTransport}
use dlms_transport.CApi.Handles.{c_run}
use dlms_transport.CApi.Tcp.{
  TcpOptions, tcp_create, tcp_destroy, tcp_open, tcp_close, tcp_read_some, tcp_write_all,
}
use dlms_transport.CApi.Udp.{
  UdpOptions, udp_create, udp_destroy, udp_open, udp_close, udp_local_port, udp_send, udp_receive,
}
use dlms_transport.CApi.Serial.{
  SerialOptions, serial_create, serial_destroy, serial_open, serial_close, serial_read_some,
  serial_write_all,
}

-- A flag of a read says that the pointer for `bytes_read` is null. A write comes with its fuel.
pub data StreamCall : Type 0 where
  calls_open calls_close calls_is_open : StreamCall
  calls_read_some : Output → Bool → StreamCall
  calls_write_all : ℕ → Input → StreamCall

pub data DatagramCall : Type 0 where
  opens_udp closes_udp calls_local_port : DatagramCall
  calls_send : Input → DatagramCall
  calls_receive : Output → Bool → DatagramCall

module _ (os : Os) where
  unfoldable pub tcp_step : StreamCall → Option TcpStreamTransport → Io (Option TcpStreamTransport)
  tcp_step calls_open handle = do r ← tcp_open os handle; return r.1
  tcp_step calls_close handle = do r ← tcp_close os handle; return r.1
  tcp_step calls_is_open handle = return handle
  tcp_step (calls_read_some output null) handle = do
    r ← tcp_read_some os output null handle
    return r.1
  tcp_step (calls_write_all fuel input) handle = do
    r ← tcp_write_all os fuel input handle
    return r.1

  unfoldable pub udp_step : DatagramCall → Option UdpTransport → Io (Option UdpTransport)
  udp_step opens_udp handle = do r ← udp_open os handle; return r.1
  udp_step closes_udp handle = do r ← udp_close os handle; return r.1
  udp_step calls_local_port handle = do r ← udp_local_port os handle; return handle
  udp_step (calls_send input) handle = do r ← udp_send os input handle; return handle
  udp_step (calls_receive output null) handle = do
    r ← udp_receive os output null handle
    return handle

  unfoldable pub serial_step : StreamCall → Option SerialTransport → Io (Option SerialTransport)
  serial_step calls_open handle = do r ← serial_open os handle; return r.1
  serial_step calls_close handle = do r ← serial_close os handle; return r.1
  serial_step calls_is_open handle = return handle
  serial_step (calls_read_some output null) handle = do
    r ← serial_read_some os output null handle
    return handle
  serial_step (calls_write_all fuel input) handle = do
    r ← serial_write_all os fuel input handle
    return handle

  -- The rest of the program, with what it has been given.
  unfoldable pub tcp_use :
      List StreamCall → Option TcpStreamTransport → Io (Option TcpStreamTransport)
  tcp_use ds handle = do last ← c_run tcp_step ds handle; tcp_destroy os last

  unfoldable pub tcp_program :
      Bool → Option TcpOptions → Bool → List StreamCall → Io (Option TcpStreamTransport)
  tcp_program memory options out_null ds = tcp_use ds (tcp_create memory options out_null).1

  unfoldable pub udp_use : List DatagramCall → Option UdpTransport → Io (Option UdpTransport)
  udp_use ds handle = do last ← c_run udp_step ds handle; udp_destroy os last

  unfoldable pub udp_program :
      Bool → Option UdpOptions → Bool → List DatagramCall → Io (Option UdpTransport)
  udp_program memory options out_null ds = udp_use ds (udp_create memory options out_null).1

  unfoldable pub serial_use : List StreamCall → Option SerialTransport → Io (Option SerialTransport)
  serial_use ds handle = do last ← c_run serial_step ds handle; serial_destroy os last

  unfoldable pub serial_program :
      Bool → Option SerialOptions → Bool → List StreamCall → Io (Option SerialTransport)
  serial_program memory options out_null ds =
      serial_use ds (serial_create memory options out_null).1
