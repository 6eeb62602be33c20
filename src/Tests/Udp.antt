-- ===== src/Tests/Udp.antt =====
-- Runs of the UDP transport.
use dlms_transport.Prelude.{
  take, take_all, zero, suc, ℕ, refl, length, ◌+◌, ℤ, pos, ◌≡◌, true, false, List, [], ◌∷◌, arith,
}
use dlms_transport.Buffer.{Bytes, bytes}
use dlms_transport.Os.{History, IsDatagramSystem, obtained, released, IsClean, live}
use dlms_transport.Udp.Transport.{
  UdpTransport, UdpTransportOptions, new_transport, open_transport, receive, send,
}
use dlms_transport.Udp.Session.{Call, opens, closes, asks_port, sends, receives, lifetime}
use dlms_transport.Udp.Ownership.{udp_lifetime_releases}
use dlms_transport.Udp.Datagrams.{receive-One}
use dlms_transport.Udp.Waiting.{ReceivesOne}
use dlms_transport.Udp.Addresses.{open_transport_releases}
use dlms_transport.Udp.Sending.{Takes, send-Takes}
use dlms_transport.Tests.System.{small_os, small_os-IsPosix}

abbrev options : UdpTransportOptions
options = record {
  local_host = 48 ∷ [];
  local_port = 0;
  remote_host = 49 ∷ [];
  remote_port = 4059;
  receive_timeout = record { milliseconds = 5000 };
  send_timeout = record { milliseconds = 1500 };
}

abbrev calls : List Call
calls =
    sends (bytes (1 ∷ []))
    ∷ opens
    ∷ asks_port
    ∷ sends (bytes (1 ∷ 2 ∷ []))
    ∷ receives (record { is_null = false; size = 4 })
    ∷ closes
    ∷ opens
    ∷ []

udp_lifetime_releases_example :
    let after = (lifetime small_os options calls []).1 in
    IsClean after × ((j : ℤ) → live after j ≡ live [] j)
udp_lifetime_releases_example = udp_lifetime_releases small_os small_os-IsPosix options calls [] tt

abbrev open_udp : UdpTransport
open_udp = record { options = options; socket = pos 3; is_open = true; remote_configured = true }

open_transport_releases_example :
    let k = (open_transport small_os (new_transport options) []).1 in
    obtained k + released [] ≡ obtained [] + released k
open_transport_releases_example = open_transport_releases small_os (new_transport options) []

abbrev byte : Bytes
byte = 7 ∷ []

-- The same datagram of one byte arrives again and again.
abbrev waiting : ℤ → History → List Bytes
waiting fd h = byte ∷ []

taken :
    (h : History) (fd : ℤ) (len n : ℕ)
    → (small_os.recv h fd len).0 ≡ pos n
    → ((small_os.recv h fd len).1 ≡ take len byte) × (length (small_os.recv h fd len).1 ≡ n)
taken h fd zero n e = (refl, ground (arith, e))
taken h fd (suc len) n e =
    let whole = take_all (suc len) byte (omega arith) in (ground (arith, whole), ground (arith, e))

small_os-IsDatagramSystem : IsDatagramSystem small_os waiting
small_os-IsDatagramSystem = record {
  select_keeps = λ h fd r t. ([], refl);
  pending_keeps = λ h fd. ([], refl);
  pending_size = λ h fd e. refl;
  recv_takes = λ h fd len n e. let p = taken h fd len n e in (byte, byte ∷ [], refl, p.0, p.1);
  recv_fails = λ h fd len e. absurd (ground arith);
  ready_waits = λ h fd t len n e f. (byte, [], refl);
}

receive-One_example :
    let r = receive small_os (record { is_null = false; size = 4 }) open_udp [] in
    ReceivesOne small_os waiting (pos 3) 4 [] r.0 r.1
receive-One_example =
    receive-One small_os waiting small_os-IsDatagramSystem (record { is_null = false; size = 4 })
      open_udp [] (omega arith)

send-Takes_example :
    let r = send small_os (bytes (1 ∷ 2 ∷ [])) open_udp [] in Takes (pos 3) (1 ∷ 2 ∷ []) [] r.0 r.1
send-Takes_example =
    send-Takes small_os small_os-IsPosix (bytes (1 ∷ 2 ∷ [])) open_udp [] (omega arith)
