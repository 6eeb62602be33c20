-- ===== src/Process/Objects.antt =====
-- The transports of a process, one call on each, and their ends.
use dlms_transport.Prelude.{Option, none}
use dlms_transport.Os.{Os, Io, Handle, ◌>>=◌, ◌>>◌, return, closed_handle}
use dlms_transport.Tcp.Stream.{
  TcpStreamTransport, TcpStreamTransportOptions, new_stream, close_stream,
}
use dlms_transport.Tcp.Session.{Call as TcpCall, step as tcp_step}
use dlms_transport.Udp.Transport.{UdpTransport, UdpTransportOptions, new_transport, close_transport}
use dlms_transport.Udp.Session.{Call as UdpCall, step as udp_step}
use dlms_transport.Serial.Port.{SerialTransport, SerialTransportOptions, new_port, close_port}
use dlms_transport.Serial.Session.{Call as SerialCall, step as serial_step}
use dlms_transport.Server.Accepted.{AcceptedTcpStream}
use dlms_transport.Server.Listener.{
  TcpServerTransport, TcpServerTransportOptions, new_server, close_server, reset_connection,
}
use dlms_transport.Server.Session.{ServerCall, StreamCall, server_step, connection_step}
use dlms_transport.Server.Ownership.{connection_socket, connection_open}

-- A destroyed object is `gone`.
pub data Object : Type 0 where
  client : TcpStreamTransport → Object
  datagrams : UdpTransport → Object
  serial : SerialTransport → Object
  listener : TcpServerTransport → Object
  connection : Option AcceptedTcpStream → Object
  gone : Object

-- What a constructor is given.
pub data Recipe : Type 0 where
  makes_client : TcpStreamTransportOptions → Recipe
  makes_datagrams : UdpTransportOptions → Recipe
  makes_serial : SerialTransportOptions → Recipe
  makes_listener : TcpServerTransportOptions → Recipe
  makes_connection : Recipe

pub data ObjectCall : Type 0 where
  on_client : TcpCall → ObjectCall
  on_datagrams : UdpCall → ObjectCall
  on_serial : SerialCall → ObjectCall
  on_listener : ServerCall → ObjectCall
  on_connection : StreamCall → ObjectCall

unfoldable pub construct : Recipe → Object
construct (makes_client options) = client (new_stream options)
construct (makes_datagrams options) = datagrams (new_transport options)
construct (makes_serial options) = serial (new_port options)
construct (makes_listener options) = listener (new_server options)
construct makes_connection = connection none

-- The descriptor that an object owns, and whether it is open.
abbrev pub handle_of : Object → Handle
handle_of (client t) = (t.socket, t.is_open)
handle_of (datagrams t) = (t.socket, t.is_open)
handle_of (serial t) = (t.handle, t.is_open)
handle_of (listener t) = (t.socket, t.is_open)
handle_of (connection c) = (connection_socket c, connection_open c)
handle_of gone = closed_handle

module _ (os : Os) where
  -- A call that does not fit the object is no call.
  unfoldable pub call_object : ObjectCall → Object → Io Object
  call_object (on_client c) (client t) = do next ← tcp_step os c t; return (client next)
  call_object (on_datagrams c) (datagrams t) = do next ← udp_step os c t; return (datagrams next)
  call_object (on_serial c) (serial t) = do next ← serial_step os c t; return (serial next)
  call_object (on_listener c) (listener t) = do next ← server_step os c t; return (listener next)
  call_object (on_connection c) (connection p) = do
    next ← connection_step os c p
    return (connection next)
  call_object _ x = return x

  -- The destructors.
  unfoldable pub destroy : Object → Io Object
  destroy (client t) = do closed ← close_stream os t; return gone
  destroy (datagrams t) = do closed ← close_transport os t; return gone
  destroy (serial t) = do closed ← close_port os t; return gone
  destroy (listener t) = do closed ← close_server os t; return gone
  destroy (connection c) = do reset_connection c; return gone
  destroy gone = return gone
