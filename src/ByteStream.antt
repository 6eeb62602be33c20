-- ===== src/ByteStream.antt =====
-- `IByteStream` of include/dlms/transport/byte_stream.hpp: the interface, and what its comments
-- promise. `W` is all the state that the operations may change.
use dlms_transport.Prelude.{ℕ, ◌<◌, ◌≤◌, ◌≡◌, Bool, true, false, ◌++◌, length, ◌⊎◌}
use dlms_transport.Status.{
  Status, ok, already_open, not_open, invalid_argument, connection_closed, is_ok, is_already_open,
}
use dlms_transport.Buffer.{Bytes, Input, contents, bad_input, Output, bad_output, Read, no_bytes}

pub record ByteStream (W : Type 0) : Type 0 where
  pub open_stream : W → Status × W
  pub close_stream : W → Status × W
  pub is_open : W → Bool
  pub read_some : Output → W → Read × W
  pub write_all : Input → W → Status × W

-- The statuses, and when the stream is open.
pub record IsByteStream {W : Type 0} (s : ByteStream W) : Type 0 where
  pub open_ok : (w : W) → is_ok (s.open_stream w).0 ≡ true → s.is_open (s.open_stream w).1 ≡ true
  pub open_twice : (w : W) → s.is_open w ≡ true → s.open_stream w ≡ (already_open, w)
  pub open_failure :
      (w : W)
      → is_ok (s.open_stream w).0 ≡ false
      → is_already_open (s.open_stream w).0 ≡ false
      → s.is_open (s.open_stream w).1 ≡ false
  pub close_ok : (w : W) → (s.close_stream w).0 ≡ ok
  pub close_closes : (w : W) → s.is_open (s.close_stream w).1 ≡ false
  pub read_not_open :
      (output : Output) (w : W)
      → s.is_open w ≡ false
      → s.read_some output w ≡ (no_bytes not_open, w)
  pub read_null :
      (output : Output) (w : W)
      → s.is_open w ≡ true
      → bad_output output ≡ true
      → s.read_some output w ≡ (no_bytes invalid_argument, w)
  pub write_not_open :
      (input : Input) (w : W) → s.is_open w ≡ false → s.write_all input w ≡ (not_open, w)
  pub write_null :
      (input : Input) (w : W)
      → s.is_open w ≡ true
      → bad_input input ≡ true
      → s.write_all input w ≡ (invalid_argument, w)

-- The bytes, for buffers whose size is below a limit, with a view of what the stream has taken over.
pub record Carries {W : Type 0} (s : ByteStream W) (sent : W → Bytes) (limit : ℕ) : Type 0 where
  pub read_fits :
      (output : Output) (w : W)
      → output.size < limit
      → let r = (s.read_some output w).0 in
        (r.bytes_read ≤ output.size) × (length r.output ≡ r.bytes_read)
  pub write_exact :
      (input : Input) (w : W)
      → length (contents input) < limit
      → is_ok (s.write_all input w).0 ≡ true
      → sent (s.write_all input w).1 ≡ sent w ++ contents input

-- How a closed stream answers `Open`, with what makes its options valid and the statuses for a
-- failure of the endpoint or of the system.
pub record OpensAsPromised {W : Type 0} (s : ByteStream W) (Valid : W → Type 0)
    (Failure : Status → Type 0) : Type 0 where
  pub open_invalid :
      (w : W) → s.is_open w ≡ false → ¬ Valid w → s.open_stream w ≡ (invalid_argument, w)
  pub open_valid :
      (w : W)
      → s.is_open w ≡ false
      → Valid w
      → ((s.open_stream w).0 ≡ ok) ⊎ Failure (s.open_stream w).0

-- A read that observes that the peer has closed leaves the stream closed.
pub record ClosesWithPeer {W : Type 0} (s : ByteStream W) (limit : ℕ) : Type 0 where
  pub peer_close :
      (output : Output) (w : W)
      → output.size < limit
      → (s.read_some output w).0.status ≡ connection_closed
      → s.is_open (s.read_some output w).1 ≡ false
