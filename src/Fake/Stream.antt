-- ===== src/Fake/Stream.antt =====
-- `FakeByteStream` of fake_transport.hpp.
use dlms_transport.Prelude.{
  ℕ, Bool, true, false, not, List, [], ◌∷◌, ◌++◌, length, take, drop, min, ◌==◌, if◌then◌else◌,
}
use dlms_transport.Status.{Status, ok, invalid_argument, not_open, already_open, would_block, is_ok}
use dlms_transport.Buffer.{
  Bytes, Input, input_size, contents, bad_input, Output, bad_output, Read, no_bytes,
}

pub record FakeByteStream : Type 0 where
  pub is_open : Bool
  pub read_chunks : List Bytes
  pub writes : List Bytes
  pub next_read_status : Status
  pub next_write_status : Status

-- The constructor.
abbrev pub new_fake : FakeByteStream
new_fake = record {
  is_open = false;
  read_chunks = [];
  writes = [];
  next_read_status = ok;
  next_write_status = ok;
}

unfoldable pub open_stream : FakeByteStream → Status × FakeByteStream
open_stream s = if s.is_open then (already_open, s) else (ok, record s { is_open = true })

unfoldable pub close_stream : FakeByteStream → Status × FakeByteStream
close_stream s = (ok, record s { is_open = false })

-- The chunk at the front of the queue gives what fits; the rest of it stays.
abbrev pub read_front : ℕ → FakeByteStream → List Bytes → Read × FakeByteStream
read_front size s [] = (no_bytes would_block, s)
read_front size s (chunk ∷ later) =
    let count = min size (length chunk) in
    let rest = if count == length chunk then later else drop count chunk ∷ later in
    (
      record { status = ok; bytes_read = count; output = take count chunk },
      record s { read_chunks = rest },
    )

unfoldable pub read_some : Output → FakeByteStream → Read × FakeByteStream
read_some output s =
    if not s.is_open
    then (no_bytes not_open, s)
    else if bad_output output
    then (no_bytes invalid_argument, s)
    else if not (is_ok s.next_read_status)
    then (no_bytes s.next_read_status, record s { next_read_status = ok })
    else read_front output.size s s.read_chunks

unfoldable pub write_all : Input → FakeByteStream → Status × FakeByteStream
write_all input s =
    if not s.is_open
    then (not_open, s)
    else if bad_input input
    then (invalid_argument, s)
    else if not (is_ok s.next_write_status)
    then (s.next_write_status, record s { next_write_status = ok })
    else if input_size input == 0
    then (ok, record s { writes = s.writes ++ ([] ∷ []) })
    else (ok, record s { writes = s.writes ++ (contents input ∷ []) })

unfoldable pub script_read : Bytes → FakeByteStream → FakeByteStream
script_read xs s = record s { read_chunks = s.read_chunks ++ (xs ∷ []) }

unfoldable pub script_next_read_status : Status → FakeByteStream → FakeByteStream
script_next_read_status status s = record s { next_read_status = status }

unfoldable pub script_next_write_status : Status → FakeByteStream → FakeByteStream
script_next_write_status status s = record s { next_write_status = status }

unfoldable pub reset : FakeByteStream → FakeByteStream
reset s = record {
  is_open = false;
  read_chunks = [];
  writes = [];
  next_read_status = ok;
  next_write_status = ok;
}
