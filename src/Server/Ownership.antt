-- ===== src/Server/Ownership.antt =====
-- The listener owns its socket, a `std::unique_ptr` the socket of the stream that it holds.
use mathlib.Core.Path.{subst}
use dlms_transport.Prelude.{
  ℕ, ℤ, ◌==ℤ◌, ◌≡◌, refl, sym, ◌∙◌, Bool, true, false, not, ◌||◌, is_positive, List, Option, none,
  some, arith,
}
use dlms_transport.Status.{is_ok, is_timeout}
use dlms_transport.Buffer.{Input, bad_input, contents, Output}
use dlms_transport.Os.{
  Os, History, Address, invalid, Works, Gains, Gains-Works, Gains-Drops, IsPosix, Ends, Ends-return,
  Ends-bind, Ends-then, Ends-if, Ends-weaken, refused, made, call_getaddrinfo-Ends,
  call_freeaddrinfo-Ends, call_accept-Ends, call_close-Ends, last_error-Ends, Owner, Owner-Works,
  Owner-Keeps, Owner-Gains, give_back-Owner, Agrees-Ends,
}
use dlms_transport.Tcp.Custody.{set_non_blocking-Works, wait_for_socket-Works}
use dlms_transport.Tcp.Ownership
use dlms_transport.Server.Accepted.{
  AcceptedTcpStream, new_accepted, close_stream, read_some, write_all,
}
use dlms_transport.Server.Listener.{
  TcpServerTransport, reset_connection, opened, resolve_and_listen, open_server, close_server,
  take_client, accept_client, accept,
}
use dlms_transport.Server.Agreement.{client_of, read_some-Agrees, write_loop-same}
use dlms_transport.Server.Custody.{Holds, try_addresses-Holds}
use dlms_transport.Server.Session.{
  ServerCall, StreamCall, server_step, stream_step, connection_step,
}

-- The listener owns its socket, if it is open.
abbrev pub Owns : (ℤ → Bool) → TcpServerTransport → History → Type 0
Owns base t h = Owner base t.socket t.is_open h

-- What a pointer owns.
abbrev pub connection_socket : Option AcceptedTcpStream → ℤ
connection_socket none = invalid
connection_socket (some s) = s.socket

abbrev pub connection_open : Option AcceptedTcpStream → Bool
connection_open none = false
connection_open (some s) = s.is_open

abbrev pub Holding : (ℤ → Bool) → Option AcceptedTcpStream → History → Type 0
Holding base c h = Owner base (connection_socket c) (connection_open c) h

module _ (os : Os) (base : ℤ → Bool) where
  opened-Owns :
      (t : TcpServerTransport) (r : Option (ℤ × ℕ)) (h k : History)
      → t.is_open ≡ false
      → Owns base t h
      → Holds h r k
      → Owns base (opened os t r).1 k
  opened-Owns t none h k e o p = Owner-Keeps o p
  opened-Owns t (some listening) h k e o p = Owner-Gains e o p

  open_server-Owns :
      IsPosix os
      → (t : TcpServerTransport) (h : History) → Owns base t h
      → Ends (open_server os t) h (λ r k. Owns base r.1 k)
  unfolding open_server
  open_server-Owns posix t h o =
      Ends-if t.is_open (λ e. Ends-return _ o)
        λ closed.
          Ends-if (not (is_positive t.options.backlog)) (λ e. Ends-return _ o)
            λ e.
              Ends-bind (call_getaddrinfo-Ends os _ _ _ h)
                λ addresses k p. resolved addresses k closed (Owner-Keeps o p)
    where
      resolved :
          (addresses : Option (List Address)) (k : History)
          → t.is_open ≡ false
          → Owns base t k
          → Ends (resolve_and_listen os t addresses) k (λ r l. Owns base r.1 l)
      resolved none k e o = unfold resolve_and_listen in Ends-return _ o
      resolved (some addresses) k e o =
          unfold resolve_and_listen in
          Ends-bind (try_addresses-Holds os t.options.backlog posix addresses k) λ outcome l p.
            Ends-then (call_freeaddrinfo-Ends addresses l)
              λ m q. Ends-return _ (Owner-Keeps (opened-Owns t outcome k l e o p) q)

  pub close_server-Owns :
      (t : TcpServerTransport) (h : History)
      → Owns base t h
      → Ends (close_server os t) h (λ r k. Owns base r.1 k × (r.1.is_open ≡ false))
  unfolding close_server
  close_server-Owns t h o =
      Ends-then (give_back-Owner t.socket t.is_open h o) λ k p. Ends-return _ (p, refl)

  pub server_step-Owns :
      IsPosix os
      → (c : ServerCall) (t : TcpServerTransport) (h : History) → Owns base t h
      → Ends (server_step os c t) h (λ r k. Owns base r k)
  unfolding server_step
  server_step-Owns posix ServerCall.opens t h o =
      Ends-bind (open_server-Owns posix t h o) λ r k p. Ends-return _ p
  server_step-Owns posix ServerCall.closes t h o =
      Ends-bind (close_server-Owns t h o) λ r k p. Ends-return _ p.0

  close_stream-Owns :
      (s : AcceptedTcpStream) (h : History)
      → Holding base (some s) h
      → Ends (close_stream s) h (λ r k. Holding base none k × Holding base (some r.1) k)
  unfolding close_stream
  close_stream-Owns s h o =
      Ends-then (give_back-Owner s.socket s.is_open h o) λ k p. Ends-return _ (p, p)

  pub reset_connection-Owns :
      (c : Option AcceptedTcpStream) (h : History)
      → Holding base c h
      → Ends (reset_connection c) h (λ u k. Holding base none k)
  unfolding reset_connection
  reset_connection-Owns none h o = Ends-return tt o
  reset_connection-Owns (some s) h o =
      Ends-bind (close_stream-Owns s h o) λ r k p. Ends-return tt p.0

  read_some-Owns :
      (output : Output) (s : AcceptedTcpStream) (h : History)
      → Holding base (some s) h
      → Ends (read_some os output s) h (λ r k. Holding base (some r.1) k)
  read_some-Owns output s h o =
      Agrees-Ends (read_some-Agrees os output s h)
        (Ownership.read_some-Owns os base output (client_of s) h o)
        λ a c k p q. subst (λ t. Ownership.Owns base t k) (sym p.1) q

  write_all-Owns :
      (fuel : ℕ) (input : Input) (s : AcceptedTcpStream) (h : History)
      → Holding base (some s) h
      → Ends (write_all os fuel input s) h (λ r k. Holding base (some s) k)
  unfolding write_all
  write_all-Owns fuel input s h o =
      Ends-if (not s.is_open) (λ e. Ends-return _ o)
        λ e.
          Ends-if (bad_input input) (λ f. Ends-return _ o)
            λ f.
              Ends-weaken
                (rw (write_loop-same os s.socket s.write_timeout (contents input) fuel 0) (
                  Ownership.write_loop-Works os base s.socket s.write_timeout (contents input) fuel
                    0 h))
                λ r k w. Owner-Works (ground arith) o w

  stream_step-Owns :
      (c : StreamCall) (s : AcceptedTcpStream) (h : History)
      → Holding base (some s) h
      → Ends (stream_step os c s) h (λ r k. Holding base r k)
  unfolding stream_step
  stream_step-Owns StreamCall.closes s h o =
      Ends-bind (close_stream-Owns s h o) λ r k p. Ends-return _ p.1
  stream_step-Owns StreamCall.resets s h o =
      Ends-then (reset_connection-Owns (some s) h o) λ k p. Ends-return _ p
  stream_step-Owns (StreamCall.reads output) s h o =
      Ends-bind (read_some-Owns output s h o) λ r k p. Ends-return _ p
  stream_step-Owns (StreamCall.writes fuel input) s h o =
      Ends-bind (write_all-Owns fuel input s h o) λ r k p. Ends-return _ p

  pub connection_step-Owns :
      (c : StreamCall) (p : Option AcceptedTcpStream) (h : History)
      → Holding base p h
      → Ends (connection_step os c p) h (λ r k. Holding base r k)
  unfolding connection_step
  connection_step-Owns c none h o = Ends-return _ o
  connection_step-Owns c (some s) h o = stream_step-Owns c s h o

  -- What works on a descriptor of the others, for an object that owns nothing.
  others-Owns :
      {fd : ℤ} {h k : History}
      → base fd ≡ true
      → Holding base none h
      → Works fd h k
      → Holding base none k
  others-Owns {fd} b o w = record {
    flag = o.flag;
    void = o.void;
    outside = o.outside;
    exact = λ j. w.same j ∙ o.exact j;
    clean = w.clean (o.exact fd ∙ b) o.clean;
  }

  take_client-Owns :
      (t : TcpServerTransport) (fd : ℤ) (h k : History)
      → Holding base none h
      → Gains fd h k
      → Ends (take_client os t fd) k (λ r l. Holding base r.1 l)
  unfolding take_client new_accepted
  take_client-Owns t fd h k o g = Ends-bind (set_non_blocking-Works os fd k) λ non_blocking l p.
      let kept = Gains-Works g p in
      Ends-if non_blocking (λ e. Ends-return _ (Owner-Gains refl o kept))
        λ e.
          Ends-then (call_close-Ends fd l) λ m d. Ends-return _ (Owner-Keeps o (Gains-Drops kept d))

  -- `Accept`, for the pointer that it fills: the listener is one of the others.
  pub accept-Owns :
      IsPosix os
      → (c : Option AcceptedTcpStream) (t : TcpServerTransport) (h : History)
      → (t.is_open ≡ true → base t.socket ≡ true)
      → Holding base c h
      → Ends (accept os c t) h (λ r k. Holding base r.1 k)
  unfolding accept accept_client
  accept-Owns posix c t h up o = Ends-then (reset_connection-Owns c h o) λ k p.
      Ends-if (not t.is_open) (λ e. Ends-return _ p)
        λ e. Ends-bind (wait_for_socket-Works os t.socket true _ k) λ waited l w.
          let b = up (ground arith) in
          let q = others-Owns b p w in
          Ends-if (is_timeout waited) (λ f. Ends-return _ q)
            λ f.
              Ends-if (not (is_ok waited) || not t.is_open) (λ g. Ends-return _ q)
                λ g.
                  Ends-bind (call_accept-Ends os posix t.socket l (q.exact t.socket ∙ b))
                    λ client m x.
                      Ends-if (not (client ==ℤ invalid))
                        (λ i. take_client-Owns t client l m q (made client (ground arith) x))
                        λ i. Ends-bind (last_error-Ends os t.socket m) λ error n y.
                          Ends-return _
                            (others-Owns b (Owner-Keeps q (refused client (ground arith) x)) y)
