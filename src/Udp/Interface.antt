-- ===== src/Udp/Interface.antt =====
-- `UdpTransport` as an `IDatagramTransport`.
use dlms_transport.Prelude.{◌≡◌, ◌==◌, true, false, is_empty}
use dlms_transport.Status.{Status, is_ok}
use dlms_transport.Os.{Os, History}
use dlms_transport.DatagramTransport.{DatagramTransport}
use dlms_transport.Udp.Transport.{
  UdpTransportOptions, UdpTransport, open_transport, close_transport, is_transport_open, send,
  receive,
}

-- The remote host and the remote port are given both or neither.
abbrev pub Valid : UdpTransportOptions → Type 0
Valid o = is_empty o.remote_host ≡ (o.remote_port == 0)

module _ (os : Os) where
  -- `Send` and `Receive` do not change the object.
  abbrev pub udp_transport : DatagramTransport (UdpTransport × History)
  udp_transport = record {
    open_transport = λ w. let r = open_transport os w.0 w.1 in (r.0.0, (r.0.1, r.1));
    close_transport = λ w. let r = close_transport os w.0 w.1 in (r.0.0, (r.0.1, r.1));
    is_open = λ w. is_transport_open w.0;
    send = λ input w. let r = send os input w.0 w.1 in (r.0, (w.0, r.1));
    receive = λ output w. let r = receive os output w.0 w.1 in (r.0, (w.0, r.1));
  }

  -- It is open after `Ok`, and as it was otherwise.
  abbrev OpensOk : UdpTransport → Status × UdpTransport → Type 0
  OpensOk t r =
      (is_ok r.0 ≡ true → r.1.is_open ≡ true) × (is_ok r.0 ≡ false → r.1.is_open ≡ t.is_open)
