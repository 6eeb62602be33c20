-- ===== src/Tests/Tls.antt =====
-- Runs of the TLS stream over the fake stream and over the TCP client.
use dlms_transport.Prelude.{true, false, List, [], ◌∷◌, some}
use dlms_transport.Status.{ok}
use dlms_transport.Buffer.{bytes, Output}
use dlms_transport.Fake.Stream.{FakeByteStream, new_fake}
use dlms_transport.Fake.Interface.{fake_stream}
use dlms_transport.ByteStream.{ByteStream}
use dlms_transport.Os.{History, invalid}
use dlms_transport.Tcp.Stream.{TcpStreamTransport}
use dlms_transport.Tcp.Interface.{tcp_stream, tcp_stream-IsByteStream}
use dlms_transport.Tests.System.{small_os, small_os-IsPosix, small_os-IsPatient}
use dlms_transport.Tls.Stream.{
  TlsStreamTransportOptions, TlsStreamBackend, unsupported_backend, new_stream,
}
use dlms_transport.Tls.Session.{Call, opens, closes, reads, writes, run, lifetime}
use dlms_transport.Tls.Closing.{Closed, tls_lifetime_closes}
use dlms_transport.Tls.Unsupported.{Refuses, unsupported-Refuses}

abbrev options : TlsStreamTransportOptions
options = record { server_name = 109 ∷ []; verify_peer = true }

-- A backend that passes everything through.
abbrev plain_backend : TlsStreamBackend FakeByteStream
plain_backend = record {
  handshake = λ lower options w. (ok, w);
  close_backend = λ lower w. (ok, w);
  read_backend = λ lower output w. lower.read_some output w;
  write_backend = λ lower input w. lower.write_all input w;
}

abbrev buffer : Output
buffer = record { is_null = false; size = 4 }

abbrev calls : List Call
calls = opens ∷ writes (bytes (1 ∷ 2 ∷ [])) ∷ reads buffer ∷ closes ∷ opens ∷ []

-- The TCP client as the lower stream, and a backend that reads and writes through it.
abbrev tcp_lower : ByteStream (TcpStreamTransport × History)
tcp_lower = tcp_stream small_os (λ h. 0)

abbrev tcp_backend : TlsStreamBackend (TcpStreamTransport × History)
tcp_backend = record {
  handshake = λ lower options w. (ok, w);
  close_backend = λ lower w. (ok, w);
  read_backend = λ lower output w. lower.read_some output w;
  write_backend = λ lower input w. lower.write_all input w;
}

abbrev client : TcpStreamTransport × History
client = (
  record {
    options = record {
      host = 49 ∷ [];
      port = 4059;
      connect_timeout = record { milliseconds = 5000 };
      read_timeout = record { milliseconds = 5000 };
      write_timeout = record { milliseconds = 1500 };
    };
    socket = invalid;
    is_open = false;
  },
  [],
)

tls_lifetime_closes_example :
    Closed (some tcp_lower) (lifetime (some tcp_lower) (some tcp_backend) options calls client)
tls_lifetime_closes_example =
    tls_lifetime_closes (some tcp_lower) (some tcp_backend) options calls client
      (tcp_stream-IsByteStream small_os (λ h. 0) small_os-IsPosix small_os-IsPatient).0

unsupported-Refuses_example :
    Refuses buffer (bytes (1 ∷ [])) (
      run calls (some (new_stream (some fake_stream) (some unsupported_backend) options, new_fake)))
unsupported-Refuses_example =
    unsupported-Refuses (some fake_stream) options calls new_fake buffer (bytes (1 ∷ []))
