-- ===== src/DatagramTransport.antt =====
-- `IDatagramTransport` of include/dlms/transport/datagram_transport.hpp: the interface, and what its
-- comments promise. `W` is all the state that the operations may change.
use dlms_transport.Prelude.{ℕ, ◌≤◌, ◌<◌, ◌≡◌, ◌++◌, ◌∷◌, List, Bool, true, false, length, ◌⊎◌}
use dlms_transport.Status.{
  Status, ok, already_open, not_open, invalid_argument, open_failed, output_buffer_too_small, is_ok,
}
use dlms_transport.Buffer.{Bytes, Input, bad_input, Output, bad_output, Read, no_bytes}

pub record DatagramTransport (W : Type 0) : Type 0 where
  pub open_transport : W → Status × W
  pub close_transport : W → Status × W
  pub is_open : W → Bool
  pub send : Input → W → Status × W
  pub receive : Output → W → Read × W

-- With a view of the datagrams that wait in the channel, in their order, what makes the options
-- valid, and for buffers whose size is below a limit. While an operation runs, more may arrive.
pub record IsDatagramTransport {W : Type 0} (d : DatagramTransport W) (waiting : W → List Bytes)
    (Valid : W → Type 0) (limit : ℕ) : Type 0 where
  pub open_invalid :
      (w : W) → d.is_open w ≡ false → ¬ Valid w → d.open_transport w ≡ (invalid_argument, w)
  pub open_valid :
      (w : W)
      → d.is_open w ≡ false
      → Valid w
      → ((d.open_transport w).0 ≡ ok) ⊎ ((d.open_transport w).0 ≡ open_failed)
  pub open_ok :
      (w : W) → is_ok (d.open_transport w).0 ≡ true → d.is_open (d.open_transport w).1 ≡ true
  pub open_twice : (w : W) → d.is_open w ≡ true → d.open_transport w ≡ (already_open, w)
  pub open_failure :
      (w : W)
      → d.is_open w ≡ false
      → is_ok (d.open_transport w).0 ≡ false
      → d.is_open (d.open_transport w).1 ≡ false
  pub close_ok : (w : W) → (d.close_transport w).0 ≡ ok
  pub close_closes : (w : W) → d.is_open (d.close_transport w).1 ≡ false
  pub send_not_open : (input : Input) (w : W) → d.is_open w ≡ false → d.send input w ≡ (not_open, w)
  pub send_null :
      (input : Input) (w : W) → bad_input input ≡ true → is_ok (d.send input w).0 ≡ false
  pub receive_not_open :
      (output : Output) (w : W) → d.is_open w ≡ false → d.receive output w ≡ (no_bytes not_open, w)
  pub receive_null :
      (output : Output) (w : W)
      → d.is_open w ≡ true
      → bad_output output ≡ true
      → d.receive output w ≡ (no_bytes invalid_argument, w)
  pub receive_whole :
      (output : Output) (w : W)
      → output.size < limit
      → let r = d.receive output w in
        r.0.status ≡ ok
        → (r.0.bytes_read ≤ output.size)
          × (length r.0.output ≡ r.0.bytes_read)
          × (more : List Bytes) × (waiting w ++ more ≡ r.0.output ∷ waiting r.1)
  pub receive_kept :
      (output : Output) (w : W)
      → output.size < limit
      → let r = d.receive output w in
        is_ok r.0.status ≡ false
        → (r.0.bytes_read ≡ 0) × (more : List Bytes) × (waiting w ++ more ≡ waiting r.1)
  pub receive_too_small :
      (output : Output) (w : W)
      → output.size < limit
      → let r = d.receive output w in
        r.0.status ≡ output_buffer_too_small
        → (datagram : Bytes) × (rest : List Bytes) × (waiting r.1 ≡ datagram ∷ rest)
          × (output.size < length datagram)
