-- ===== src/Tests/Tcp.antt =====
-- Runs of the TCP client.
use dlms_transport.Prelude.{
  ◌^◌, some, ◌+◌, ℕ, ℤ, pos, ◌≡◌, refl, true, false, List, [], ◌∷◌, ◌++◌, take, arith,
}
use dlms_transport.Buffer.{bytes}
use dlms_transport.Os.{
  obtained, released, IsClean, live, accepted, ◌>>=◌, ◌>>◌, return, call_select, call_send,
}
use dlms_transport.Tcp.Socket.{wait_for_socket}
use dlms_transport.Tcp.Stream.{
  TcpStreamTransport, TcpStreamTransportOptions, write_all, read_some, new_stream, open_stream,
}
use dlms_transport.Tcp.Session.{Call, opens, closes, reads, writes, lifetime}
use dlms_transport.Tcp.Ownership.{lifetime_releases}
use dlms_transport.Tcp.Reading.{Reads, read_some-Reads}
use dlms_transport.Status.{ok}
use dlms_transport.Tcp.Completion.{write_all_completes}
use dlms_transport.Tcp.Opening.{Opens, open_stream-Opens}
use dlms_transport.Tcp.Addresses.{open_stream_releases}
use dlms_transport.Tcp.Writing.{write_all_delivers}
use dlms_transport.Transfer.Delivery.{Verdict}
use dlms_transport.ByteStream.{IsByteStream, OpensAsPromised, ClosesWithPeer, Carries}
use dlms_transport.Tcp.Promises.{Valid, Failure}
use dlms_transport.Tcp.Interface.{tcp_stream, tcp_stream-IsByteStream}
use dlms_transport.Tests.System.{small_os, small_os-IsPosix, small_os-IsPatient, small_os-IsWilling}

abbrev options : TcpStreamTransportOptions
options = record {
  host = 49 ∷ [];
  port = 4059;
  connect_timeout = record { milliseconds = 5000 };
  read_timeout = record { milliseconds = 5000 };
  write_timeout = record { milliseconds = 1500 };
}

abbrev calls : List Call
calls =
    writes 9 (bytes (1 ∷ []))
    ∷ opens
    ∷ opens
    ∷ writes 9 (bytes (1 ∷ 2 ∷ 3 ∷ []))
    ∷ reads (record { is_null = false; size = 4 })
    ∷ closes
    ∷ closes
    ∷ opens
    ∷ []

lifetime_releases_example :
    let after = (lifetime small_os options calls []).1 in
    IsClean after × ((j : ℤ) → live after j ≡ live [] j)
lifetime_releases_example = lifetime_releases small_os small_os-IsPosix options calls [] tt

abbrev open_client : TcpStreamTransport
open_client = record { options = options; socket = pos 3; is_open = true }

write_all_delivers_example :
    let r = write_all small_os 9 (bytes (1 ∷ 2 ∷ 3 ∷ [])) open_client [] in
    (r.0.1 ≡ open_client)
    × (n : ℕ) × Verdict r.0.0 n 3
    × (accepted (pos 3) r.1 ≡ accepted (pos 3) [] ++ take n (1 ∷ 2 ∷ 3 ∷ []))
write_all_delivers_example =
    write_all_delivers small_os (λ h. 0) small_os-IsPosix small_os-IsPatient 9
      (bytes (1 ∷ 2 ∷ 3 ∷ [])) open_client [] refl refl (omega arith) (omega arith)

open_stream_releases_example :
    let k = (open_stream small_os (new_stream options) []).1 in
    obtained k + released [] ≡ obtained [] + released k
open_stream_releases_example = open_stream_releases small_os (new_stream options) []

open_stream-Opens_example :
    Opens (new_stream options) (open_stream small_os (new_stream options) []).0
unfolding new_stream
open_stream-Opens_example = open_stream-Opens small_os (new_stream options) []

read_some-Reads_example :
    let r = read_some small_os (record { is_null = false; size = 4 }) open_client [] in
    Reads (record { is_null = false; size = 4 }) open_client [] r.0 r.1
read_some-Reads_example =
    read_some-Reads small_os small_os-IsPosix (record { is_null = false; size = 4 }) open_client []
      (omega arith)

write_all_completes_example :
    let r = write_all small_os 9 (bytes (1 ∷ 2 ∷ 3 ∷ [])) open_client [] in
    (r.0.0 ≡ some ok) × (accepted (pos 3) r.1 ≡ accepted (pos 3) [] ++ 1 ∷ 2 ∷ 3 ∷ [])
write_all_completes_example =
    write_all_completes small_os (λ h. 0) small_os-IsPosix small_os-IsPatient small_os-IsWilling 9
      (bytes (1 ∷ 2 ∷ 3 ∷ [])) open_client [] refl refl (omega arith) (omega arith)

-- All three bytes arrive.
write_run :
    accepted (pos 3) (write_all small_os 9 (bytes (1 ∷ 2 ∷ 3 ∷ [])) open_client []).1
    ≡ 1 ∷ 2 ∷ 3 ∷ []
unfolding write_all accepted ◌>>=◌ ◌>>◌ return wait_for_socket call_select call_send
write_run = refl

tcp_stream-IsByteStream_example :
    IsByteStream (tcp_stream small_os (λ h. 0))
    × OpensAsPromised (tcp_stream small_os (λ h. 0)) (λ w. Valid w.0.options) Failure
    × ClosesWithPeer (tcp_stream small_os (λ h. 0)) (2 ^ 31)
    × Carries (tcp_stream small_os (λ h. 0)) (λ w. accepted w.0.socket w.1) (2 ^ 31)
tcp_stream-IsByteStream_example =
    tcp_stream-IsByteStream small_os (λ h. 0) small_os-IsPosix small_os-IsPatient
