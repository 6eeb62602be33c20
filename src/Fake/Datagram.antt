-- ===== src/Fake/Datagram.antt =====
-- `FakeDatagramTransport` of fake_transport.hpp.
use dlms_transport.Prelude.{
  ℕ, Bool, true, false, not, List, [], ◌∷◌, ◌++◌, length, ltb, ◌==◌, if◌then◌else◌,
}
use dlms_transport.Status.{
  Status, ok, invalid_argument, not_open, already_open, would_block, output_buffer_too_small, is_ok,
}
use dlms_transport.Buffer.{
  Bytes, Input, input_size, contents, bad_input, Output, bad_output, Read, no_bytes,
}

pub record FakeDatagramTransport : Type 0 where
  pub is_open : Bool
  pub receive_datagrams : List Bytes
  pub sent_datagrams : List Bytes
  pub next_receive_status : Status
  pub next_send_status : Status

-- The constructor.
abbrev pub new_fake : FakeDatagramTransport
new_fake = record {
  is_open = false;
  receive_datagrams = [];
  sent_datagrams = [];
  next_receive_status = ok;
  next_send_status = ok;
}

unfoldable pub open_transport : FakeDatagramTransport → Status × FakeDatagramTransport
open_transport s = if s.is_open then (already_open, s) else (ok, record s { is_open = true })

unfoldable pub close_transport : FakeDatagramTransport → Status × FakeDatagramTransport
close_transport s = (ok, record s { is_open = false })

unfoldable pub send : Input → FakeDatagramTransport → Status × FakeDatagramTransport
send input s =
    if not s.is_open
    then (not_open, s)
    else if bad_input input
    then (invalid_argument, s)
    else if not (is_ok s.next_send_status)
    then (s.next_send_status, record s { next_send_status = ok })
    else if input_size input == 0
    then (ok, record s { sent_datagrams = s.sent_datagrams ++ ([] ∷ []) })
    else (ok, record s { sent_datagrams = s.sent_datagrams ++ (contents input ∷ []) })

-- The datagram at the front is handed out whole, or stays whole.
abbrev pub receive_front : ℕ → FakeDatagramTransport → List Bytes → Read × FakeDatagramTransport
receive_front size s [] = (no_bytes would_block, s)
receive_front size s (datagram ∷ later) =
    if ltb size (length datagram) then (no_bytes output_buffer_too_small, s) else (
      record { status = ok; bytes_read = length datagram; output = datagram },
      record s { receive_datagrams = later },
    )

unfoldable pub receive : Output → FakeDatagramTransport → Read × FakeDatagramTransport
receive output s =
    if not s.is_open
    then (no_bytes not_open, s)
    else if bad_output output
    then (no_bytes invalid_argument, s)
    else if not (is_ok s.next_receive_status)
    then (no_bytes s.next_receive_status, record s { next_receive_status = ok })
    else receive_front output.size s s.receive_datagrams

unfoldable pub script_receive : Bytes → FakeDatagramTransport → FakeDatagramTransport
script_receive xs s = record s { receive_datagrams = s.receive_datagrams ++ (xs ∷ []) }

unfoldable pub script_next_receive_status : Status → FakeDatagramTransport → FakeDatagramTransport
script_next_receive_status status s = record s { next_receive_status = status }

unfoldable pub script_next_send_status : Status → FakeDatagramTransport → FakeDatagramTransport
script_next_send_status status s = record s { next_send_status = status }

unfoldable pub reset : FakeDatagramTransport → FakeDatagramTransport
reset s = record {
  is_open = false;
  receive_datagrams = [];
  sent_datagrams = [];
  next_receive_status = ok;
  next_send_status = ok;
}
