-- ===== src/Server/Agreement.antt =====
-- An accepted stream behaves as a connected TCP client.
use dlms_transport.Prelude.{
  ℕ, ℤ, zero, suc, ◌≡◌, refl, ap, true, false, not, ◌==◌, ◌==ℤ◌, if◌then◌else◌, is_positive,
  is_zero, to_size, to_int, Option, [],
}
use dlms_transport.Status.{Status, is_ok}
use dlms_transport.Buffer.{Bytes, Input, contents, bad_input, Output, bad_output, Read}
use dlms_transport.Timer.{TransportDuration}
use dlms_transport.Os.{
  Os, ◌>>=◌, History, return, invalid, Agrees, Agrees-return, Agrees-bind, Agrees-bind_same,
  Agrees-then_same, Agrees-if, last_error, call_close, call_recv,
}
use dlms_transport.Tcp.Socket.{is_would_block, wait_for_socket}
use dlms_transport.Tcp.Stream
use dlms_transport.Tcp.Stream.{TcpStreamTransport}
use dlms_transport.Tcp.Writing
use dlms_transport.Tcp.Writing.{send_part, socket_loop}
use dlms_transport.Transfer.Loop.{transfer_round, transfer_loop}
use dlms_transport.Server.Accepted.{
  AcceptedTcpStream, close_stream, peer_closed, received, read_some, write_loop, write_all,
}

-- The client that has the same socket and timeouts.
abbrev pub client_of : AcceptedTcpStream → TcpStreamTransport
client_of s = record {
  options = record {
    host = [];
    port = 0;
    connect_timeout = record { milliseconds = 0 };
    read_timeout = s.read_timeout;
    write_timeout = s.write_timeout;
  };
  socket = s.socket;
  is_open = s.is_open;
}

-- The same answer, and the objects still correspond.
abbrev pub SameRead : Read × AcceptedTcpStream → Read × TcpStreamTransport → Type 0
SameRead a c = (a.0 ≡ c.0) × (client_of a.1 ≡ c.1)

abbrev pub SameStatus : Status × AcceptedTcpStream → Status × TcpStreamTransport → Type 0
SameStatus a c = (a.0 ≡ c.0) × (client_of a.1 ≡ c.1)

-- A write does not change the stream, and leaves the client that corresponds to it.
abbrev pub SameWrite :
    AcceptedTcpStream → Option Status → Option Status × TcpStreamTransport → Type 0
SameWrite s a c = (a ≡ c.0) × (client_of s ≡ c.1)

module _ (os : Os) where
  pub close_stream-Agrees :
      (s : AcceptedTcpStream) (h : History)
      → Agrees SameStatus (close_stream s) (Stream.close_stream os (client_of s)) h
  unfolding close_stream Stream.close_stream
  close_stream-Agrees s h =
      Agrees-then_same (if s.socket ==ℤ invalid then return tt else call_close s.socket)
        λ k. Agrees-return _ _ k (refl, refl)

  peer_closed-Agrees :
      (s : AcceptedTcpStream) (h : History)
      → Agrees SameRead (peer_closed os s) (Stream.peer_closed os (client_of s)) h
  unfolding peer_closed Stream.peer_closed
  peer_closed-Agrees s h =
      Agrees-bind (close_stream-Agrees s h) λ a c k p. Agrees-return _ _ k (refl, p.1)

  received-Agrees :
      (s : AcceptedTcpStream) (answer : ℤ × Bytes) (h : History)
      → Agrees SameRead (received os s answer) (Stream.received os (client_of s) answer) h
  unfolding received Stream.received
  received-Agrees s answer h =
      Agrees-if (is_positive answer.0) (λ e. Agrees-return _ _ h (refl, refl))
        λ e.
          Agrees-if (is_zero answer.0) (λ f. peer_closed-Agrees s h)
            λ f. Agrees-bind_same (last_error os) λ error k. Agrees-return _ _ k (refl, refl)

  -- `ReadSome`.
  pub read_some-Agrees :
      (output : Output) (s : AcceptedTcpStream) (h : History)
      → Agrees SameRead (read_some os output s) (Stream.read_some os output (client_of s)) h
  unfolding read_some Stream.read_some
  read_some-Agrees output s h =
      Agrees-if (not s.is_open) (λ e. Agrees-return _ _ h (refl, refl))
        λ e.
          Agrees-if (bad_output output) (λ f. Agrees-return _ _ h (refl, refl))
            λ f.
              Agrees-if (output.size == 0) (λ g. Agrees-return _ _ h (refl, refl))
                λ g. Agrees-bind_same (wait_for_socket os s.socket true s.read_timeout) λ waited k.
                  Agrees-if (not (is_ok waited)) (λ i. Agrees-return _ _ k (refl, refl))
                    λ i.
                      Agrees-bind_same (call_recv os s.socket (to_size (to_int output.size)))
                        λ answer l. received-Agrees s answer l

  write_loop-socket_loop :
      (fd : ℤ) (t : TransportDuration) (xs : Bytes) (fuel : ℕ)
      → write_loop os fd t xs fuel ≡ socket_loop os fd t xs fuel
  unfolding write_loop transfer_loop
  write_loop-socket_loop fd t xs zero = refl
  write_loop-socket_loop fd t xs (suc fuel) =
      ap
        (transfer_round os (wait_for_socket os fd false t) (send_part os fd) (is_would_block os) xs)
        (write_loop-socket_loop fd t xs fuel)

  pub write_loop-same :
      (fd : ℤ) (t : TransportDuration) (xs : Bytes) (fuel written : ℕ)
      → write_loop os fd t xs fuel written ≡ Stream.write_loop os fd t xs fuel written
  write_loop-same fd t xs fuel written =
      rw (write_loop-socket_loop fd t xs fuel, Writing.write_loop-socket_loop os fd t xs fuel) refl

  write_loop-Agrees :
      (fd : ℤ) (t : TransportDuration) (xs : Bytes) (fuel : ℕ) (s : AcceptedTcpStream) (h : History)
      → Agrees
          (SameWrite s)
          (write_loop os fd t xs fuel 0)
          (Stream.write_loop os fd t xs fuel 0 >>= λ status. return (status, client_of s))
          h
  unfolding ◌>>=◌ return
  write_loop-Agrees fd t xs fuel s h =
      rw (write_loop-socket_loop fd t xs fuel, Writing.write_loop-socket_loop os fd t xs fuel)
        (record { value = (refl, refl); log = refl })

  pub write_all-Agrees :
      (fuel : ℕ) (input : Input) (s : AcceptedTcpStream) (h : History)
      → Agrees
          (SameWrite s)
          (write_all os fuel input s)
          (Stream.write_all os fuel input (client_of s))
          h
  unfolding write_all Stream.write_all
  write_all-Agrees fuel input s h =
      Agrees-if (not s.is_open) (λ e. Agrees-return _ _ h (refl, refl))
        λ e.
          Agrees-if (bad_input input) (λ f. Agrees-return _ _ h (refl, refl))
            λ f. write_loop-Agrees s.socket s.write_timeout (contents input) fuel s h

-- What a caller does with an accepted stream, and with a connected client, has the same answers and
-- makes the same system calls: for a stream and a client with its socket and timeouts, `Close`,
-- every `ReadSome` and every `WriteAll` return the same, and leave corresponding objects.
pub accepted_stream-Agrees :
    (os : Os) (s : AcceptedTcpStream) (h : History)
    → Agrees SameStatus (close_stream s) (Stream.close_stream os (client_of s)) h
      × ((output : Output)
          → Agrees SameRead (read_some os output s) (Stream.read_some os output (client_of s)) h)
      × ((fuel : ℕ) (input : Input)
          → Agrees
              (SameWrite s)
              (write_all os fuel input s)
              (Stream.write_all os fuel input (client_of s))
              h)
accepted_stream-Agrees os s h = (
  close_stream-Agrees os s h,
  λ output. read_some-Agrees os output s h,
  λ fuel input. write_all-Agrees os fuel input s h,
)
