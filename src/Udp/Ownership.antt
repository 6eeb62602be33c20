-- ===== src/Udp/Ownership.antt =====
-- The UDP transport owns exactly the socket that it has open, through every sequence of calls.
use dlms_transport.Prelude.{
  Bool, ℕ, ℤ, ◌≡◌, refl, true, false, not, ltb, List, [], ◌∷◌, Option, none, some, arith,
  is_negative, is_empty,
}
use dlms_transport.Status.{is_ok}
use dlms_transport.Buffer.{Input, bad_input, Output, bad_output}
use dlms_transport.Os.{
  Os, History, Address, live, IsClean, Works-refl, Works-trans, IsPosix, Ends, Ends-return,
  Ends-bind, Ends-then, Ends-if, Ends-weaken, EndsWorks, call_freeaddrinfo-Ends, call_pending-Ends,
  call_getsockname-Ends, call_recv-Ends, call_send-Ends, last_error-Ends, Owner, Owner-none,
  Owner-Works, Owner-Keeps, Owner-Gains, give_back-Owner,
}
use dlms_transport.Tcp.Custody.{wait_for_socket-Works}
use dlms_transport.Udp.Socket.{pending_datagram_size, bound_local_port}
use dlms_transport.Udp.Transport.{
  UdpTransport, UdpTransportOptions, new_transport, bad_remote, opened, open_over, open_transport,
  close_transport, sent_status, send, received, receive_pending, receive, local_port,
}
use dlms_transport.Udp.Session.{
  Call, opens, closes, asks_port, sends, receives, step, run, lifetime,
}
use dlms_transport.Udp.Custody.{Holds, first_address-Keeps, try_addresses-Holds}

-- The object owns its socket, if it is open.
abbrev pub Owns : (ℤ → Bool) → UdpTransport → History → Type 0
Owns base t h = Owner base t.socket t.is_open h

module _ (os : Os) (base : ℤ → Bool) where
  opened-Owns :
      (t : UdpTransport) (r : Option ℤ) (h k : History)
      → t.is_open ≡ false
      → Owns base t h
      → Holds h r k
      → Owns base (opened os t r).1 k
  opened-Owns t none h k e o p = Owner-Keeps o p
  opened-Owns t (some fd) h k e o p = Owner-Gains e o p

  open_over-Owns :
      IsPosix os
      → (t : UdpTransport) (addresses : List Address) (h : History) → t.is_open ≡ false
      → Owns base t h
      → Ends (open_over os t addresses) h (λ r k. Owns base r.1 k)
  unfolding open_over
  open_over-Owns posix t addresses h e o =
      Ends-bind (try_addresses-Holds os t.options posix addresses h) λ outcome k p.
        Ends-then (call_freeaddrinfo-Ends addresses k)
          λ l q. Ends-return _ (Owner-Keeps (opened-Owns t outcome h k e o p) q)

  open_transport-Owns :
      IsPosix os
      → (t : UdpTransport) (h : History) → Owns base t h
      → Ends (open_transport os t) h (λ r k. Owns base r.1 k)
  unfolding open_transport
  open_transport-Owns posix t h o =
      Ends-if t.is_open (λ e. Ends-return _ o)
        λ closed.
          Ends-if (bad_remote t.options) (λ e. Ends-return _ o)
            λ e. Ends-bind (first_address-Keeps os t.options h) λ addresses k p.
              Ends-if (is_empty addresses) (λ f. Ends-return _ (Owner-Keeps o p))
                (λ f. open_over-Owns posix t addresses k closed (Owner-Keeps o p))

  pub close_transport-Owns :
      (t : UdpTransport) (h : History)
      → Owns base t h
      → Ends (close_transport os t) h (λ r k. Owns base r.1 k × (r.1.is_open ≡ false))
  unfolding close_transport
  close_transport-Owns t h o =
      Ends-then (give_back-Owner t.socket t.is_open h o) λ k p. Ends-return _ (p, refl)

  send-Owns :
      (input : Input) (t : UdpTransport) (h : History)
      → Owns base t h
      → Ends (send os input t) h (λ r k. Owns base t k)
  unfolding send sent_status
  send-Owns input t h o =
      Ends-if (not t.is_open) (λ e. Ends-return _ o)
        λ up.
          Ends-if (not t.remote_configured) (λ e. Ends-return _ o)
            λ e.
              Ends-if (bad_input input) (λ e. Ends-return _ o)
                λ e. Ends-bind (wait_for_socket-Works os t.socket false _ h) λ waited k w.
                  Ends-if (not (is_ok waited)) (λ e. Ends-return _ (Owner-Works (ground arith) o w))
                    λ e. Ends-bind (call_send-Ends os t.socket _ _ k) λ count l v.
                      let held = Owner-Works (ground arith) o (Works-trans w v) in
                      Ends-if (not (is_negative count)) (λ e. Ends-return _ held)
                        λ e.
                          Ends-bind (last_error-Ends os t.socket l)
                            λ error m x. Ends-return _ (Owner-Works (ground arith) held x)

  pending_datagram_size-Works :
      (fd : ℤ) (h : History) → EndsWorks fd (pending_datagram_size os fd) h
  unfolding pending_datagram_size
  pending_datagram_size-Works fd h =
      Ends-bind (call_pending-Ends os fd h) λ answer k p. Ends-return _ p

  receive_pending-Works :
      (output : Output) (t : UdpTransport) (pending : Option ℕ) (h : History)
      → EndsWorks t.socket (receive_pending os output t pending) h
  unfolding receive_pending received
  receive_pending-Works output t none h = Ends-return _ (Works-refl t.socket h)
  receive_pending-Works output t (some pending) h =
      Ends-if (ltb output.size pending) (λ e. Ends-return _ (Works-refl t.socket h))
        λ e. Ends-bind (call_recv-Ends os t.socket _ h) λ answer k p.
          Ends-if (not (is_negative answer.0)) (λ f. Ends-return _ p)
            λ f.
              Ends-bind (last_error-Ends os t.socket k) λ error l q. Ends-return _ (Works-trans p q)

  receive-Owns :
      (output : Output) (t : UdpTransport) (h : History)
      → Owns base t h
      → Ends (receive os output t) h (λ r k. Owns base t k)
  unfolding receive
  receive-Owns output t h o =
      Ends-if (not t.is_open) (λ e. Ends-return _ o)
        λ up.
          Ends-if (bad_output output) (λ e. Ends-return _ o)
            λ e. Ends-bind (wait_for_socket-Works os t.socket true _ h) λ waited k w.
              let held = Owner-Works (ground arith) o w in
              Ends-if (not (is_ok waited)) (λ e. Ends-return _ held)
                λ e. Ends-bind (pending_datagram_size-Works t.socket k) λ pending l v.
                  Ends-weaken (receive_pending-Works output t pending l)
                    λ r m x. Owner-Works (ground arith) held (Works-trans v x)

  local_port-Owns :
      (t : UdpTransport) (h : History)
      → Owns base t h
      → Ends (local_port os t) h (λ r k. Owns base t k)
  unfolding local_port bound_local_port
  local_port-Owns t h o =
      Ends-if (not t.is_open) (λ e. Ends-return _ o)
        λ up.
          Ends-bind {P = λ r k. Owns base t k}
            (Ends-bind (call_getsockname-Ends os t.socket h)
              λ name k p. Ends-return _ (Owner-Works (ground arith) o p))
            λ port k p. Ends-return _ p

  pub step-Owns :
      IsPosix os
      → (c : Call) (t : UdpTransport) (h : History) → Owns base t h
      → Ends (step os c t) h (λ r k. Owns base r k)
  unfolding step
  step-Owns posix opens t h o = Ends-bind (open_transport-Owns posix t h o) λ r k p. Ends-return _ p
  step-Owns posix closes t h o = Ends-bind (close_transport-Owns t h o) λ r k p. Ends-return _ p.0
  step-Owns posix asks_port t h o = Ends-bind (local_port-Owns t h o) λ r k p. Ends-return _ p
  step-Owns posix (sends input) t h o = Ends-bind (send-Owns input t h o) λ r k p. Ends-return _ p
  step-Owns posix (receives output) t h o =
      Ends-bind (receive-Owns output t h o) λ r k p. Ends-return _ p

  run-Owns :
      IsPosix os
      → (cs : List Call) (t : UdpTransport) (h : History) → Owns base t h
      → Ends (run os cs t) h (λ r k. Owns base r k)
  unfolding run
  run-Owns posix [] t h o = Ends-return _ o
  run-Owns posix (c ∷ cs) t h o =
      Ends-bind (step-Owns posix c t h o) λ next k p. run-Owns posix cs next k p

pub new_transport-Owns :
    (options : UdpTransportOptions) (h : History)
    → IsClean h
    → Owns (live h) (new_transport options) h
unfolding new_transport
new_transport-Owns options h c = Owner-none h c

-- From a log whose calls all work on descriptors in use, whatever calls are made on a
-- `UdpTransport` and whatever a POSIX system answers, during its life every system call works on a
-- descriptor that is in use at that moment, and after the destructor exactly the descriptors are in
-- use that were in use before the constructor: every candidate that `Open` gave up was closed, once.
pub udp_lifetime_releases :
    (os : Os)
    → IsPosix os
    → (options : UdpTransportOptions) (cs : List Call) (h : History) → IsClean h
    → let after = (lifetime os options cs h).1 in
      IsClean after × ((j : ℤ) → live after j ≡ live h j)
udp_lifetime_releases os posix options cs h c = ended.at
  where
    ended : Ends (lifetime os options cs) h (λ r k. IsClean k × ((j : ℤ) → live k j ≡ live h j))
    ended =
        unfold lifetime in
        Ends-bind (run-Owns os (live h) posix cs _ h (new_transport-Owns options h c)) λ t k o.
          Ends-bind (close_transport-Owns os (live h) t k o)
            λ closed l p. Ends-return _ (p.0.clean, λ j. ground (arith, p.0.exact j, p.1))
