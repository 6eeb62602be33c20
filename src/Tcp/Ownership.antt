-- ===== src/Tcp/Ownership.antt =====
-- The TCP client owns exactly the socket that it has open, through every sequence of calls.
use dlms_transport.Prelude.{
  Bool, ℕ, ℤ, ◌≡◌, refl, true, false, not, ◌||◌, List, [], ◌∷◌, Option, none, some, arith, zero,
  suc, ltb, ◌==◌, is_positive, is_zero, length, is_empty,
}
use dlms_transport.Status.{is_ok}
use dlms_transport.Buffer.{Bytes, Input, bad_input, Output, bad_output}
use dlms_transport.Timer.{TransportDuration}
use dlms_transport.Os.{
  Os, History, Address, live, IsClean, Works, Works-refl, Works-trans, IsPosix, Ends, Ends-return,
  Ends-bind, Ends-then, Ends-if, Ends-weaken, EndsWorks, call_recv-Ends, call_send-Ends,
  call_freeaddrinfo-Ends, call_getaddrinfo-Ends, last_error-Ends, last_error,
}
use dlms_transport.Os.{Owner, Owner-none, Owner-Works, Owner-Keeps, Owner-Gains, give_back-Owner}
use dlms_transport.Tcp.Socket.{is_would_block}
use dlms_transport.Tcp.Stream.{
  TcpStreamTransport, TcpStreamTransportOptions, Attempt, retry, connected, new_stream, opened,
  resolve_and_connect, open_stream, close_stream, peer_closed, received, read_some, write_loop,
  write_all,
}
use dlms_transport.Tcp.Custody.{Holds, wait_for_socket-Works, try_addresses-Holds}
use dlms_transport.Tcp.Session.{Call, opens, closes, reads, writes, step, run, lifetime}

-- The object owns its socket, if it is open.
abbrev pub Owns : (ℤ → Bool) → TcpStreamTransport → History → Type 0
Owns base t h = Owner base t.socket t.is_open h

module _ (os : Os) (base : ℤ → Bool) where
  Owns-opened :
      (t : TcpStreamTransport) (r : Attempt) (h k : History)
      → t.is_open ≡ false
      → Owns base t h
      → Holds h r k
      → Owns base (opened os t r).1 k
  Owns-opened t (retry s) h k e o p = Owner-Keeps o p
  Owns-opened t (connected fd) h k e o p = Owner-Gains e o p

  open_stream-Owns :
      IsPosix os
      → (t : TcpStreamTransport) (h : History) → Owns base t h
      → Ends (open_stream os t) h (λ r k. Owns base r.1 k)
  unfolding open_stream
  open_stream-Owns posix t h o =
      Ends-if t.is_open (λ e. Ends-return _ o)
        λ closed.
          Ends-if (is_empty t.options.host || t.options.port == 0) (λ e. Ends-return _ o)
            λ valid.
              Ends-bind (call_getaddrinfo-Ends os _ _ _ h)
                λ addresses k p. resolved addresses k closed (Owner-Keeps o p)
    where
      resolved :
          (addresses : Option (List Address)) (k : History)
          → t.is_open ≡ false
          → Owns base t k
          → Ends (resolve_and_connect os t addresses) k (λ r l. Owns base r.1 l)
      resolved none k e o = Ends-return _ o
      resolved (some addresses) k e o =
          Ends-bind (try_addresses-Holds os _ posix addresses _ k) λ outcome l p.
            Ends-then (call_freeaddrinfo-Ends addresses l)
              λ m q. Ends-return _ (Owner-Keeps (Owns-opened t outcome k l e o p) q)

  -- Closing gives the socket back, whatever the state.
  pub close_stream-Owns :
      (t : TcpStreamTransport) (h : History)
      → Owns base t h
      → Ends (close_stream os t) h (λ r k. Owns base r.1 k × (r.1.is_open ≡ false))
  unfolding close_stream
  close_stream-Owns t h o =
      Ends-then (give_back-Owner t.socket t.is_open h o) λ k p. Ends-return _ (p, refl)

  peer_closed-Owns :
      (t : TcpStreamTransport) (h : History)
      → Owns base t h
      → Ends (peer_closed os t) h (λ r k. Owns base r.1 k)
  unfolding peer_closed
  peer_closed-Owns t h o = Ends-bind (close_stream-Owns t h o) λ r k p. Ends-return _ p.0

  received-Owns :
      (t : TcpStreamTransport) (answer : ℤ × Bytes) (h : History)
      → Owns base t h
      → Ends (received os t answer) h (λ r k. Owns base r.1 k)
  unfolding received last_error
  received-Owns t answer h o =
      Ends-if (is_positive answer.0) (λ e. Ends-return _ o)
        λ e.
          Ends-if (is_zero answer.0) (λ f. peer_closed-Owns t h o)
            λ f.
              Ends-bind {P = λ error k. Owns base t k} (record { at = o })
                λ error k p. Ends-return _ p

  pub read_some-Owns :
      (output : Output) (t : TcpStreamTransport) (h : History)
      → Owns base t h
      → Ends (read_some os output t) h (λ r k. Owns base r.1 k)
  unfolding read_some
  read_some-Owns output t h o =
      Ends-if (not t.is_open) (λ e. Ends-return _ o)
        λ opened_before.
          Ends-if (bad_output output) (λ e. Ends-return _ o)
            λ e.
              Ends-if (output.size == 0) (λ f. Ends-return _ o)
                λ f. Ends-bind (wait_for_socket-Works os t.socket true _ h) λ waited k w.
                  let held = Owner-Works (ground arith) o w in
                  Ends-if (not (is_ok waited)) (λ g. Ends-return _ held)
                    λ g.
                      Ends-bind (call_recv-Ends os t.socket _ k)
                        λ answer l v. received-Owns t answer l (Owner-Works (ground arith) held v)

  pub write_loop-Works :
      (fd : ℤ) (t : TransportDuration) (input : Bytes) (fuel written : ℕ) (h : History)
      → EndsWorks fd (write_loop os fd t input fuel written) h
  unfolding write_loop
  write_loop-Works fd t input zero written h = Ends-return _ (Works-refl fd h)
  write_loop-Works fd t input (suc fuel) written h =
      Ends-if (not (ltb written (length input))) (λ e. Ends-return _ (Works-refl fd h))
        λ e. Ends-bind (wait_for_socket-Works os fd false t h) λ waited k w.
          Ends-if (not (is_ok waited)) (λ f. Ends-return _ w)
            λ f. Ends-bind (call_send-Ends os fd _ _ k) λ chunk l v.
              let sent = Works-trans w v in
              let later = λ (n : ℕ) (m : History) (x : Works fd h m).
                Ends-weaken (write_loop-Works fd t input fuel n m) (λ a z y. Works-trans x y) in
              Ends-if (is_positive chunk) (λ g. later _ l sent)
                λ g.
                  Ends-if (is_zero chunk) (λ i. Ends-return _ sent)
                    λ i. Ends-bind (last_error-Ends os fd l) λ error m y.
                      let seen = Works-trans sent y in
                      Ends-if (is_would_block os error) (λ x. later written m seen)
                        (λ x. Ends-return _ seen)

  write_all-Owns :
      (fuel : ℕ) (input : Input) (t : TcpStreamTransport) (h : History)
      → Owns base t h
      → Ends (write_all os fuel input t) h (λ r k. Owns base r.1 k)
  unfolding write_all
  write_all-Owns fuel input t h o =
      Ends-if (not t.is_open) (λ e. Ends-return _ o)
        λ e.
          Ends-if (bad_input input) (λ f. Ends-return _ o)
            λ f.
              Ends-bind (write_loop-Works t.socket _ _ fuel 0 h)
                λ status k w. Ends-return _ (Owner-Works (ground arith) o w)

  -- No call but `Open` needs anything of the system to keep this up.
  pub step-Owns :
      IsPosix os
      → (c : Call) (t : TcpStreamTransport) (h : History) → Owns base t h
      → Ends (step os c t) h (λ r k. Owns base r k)
  unfolding step
  step-Owns posix opens t h o = Ends-bind (open_stream-Owns posix t h o) λ r k p. Ends-return _ p
  step-Owns posix closes t h o = Ends-bind (close_stream-Owns t h o) λ r k p. Ends-return _ p.0
  step-Owns posix (reads output) t h o =
      Ends-bind (read_some-Owns output t h o) λ r k p. Ends-return _ p
  step-Owns posix (writes fuel input) t h o =
      Ends-bind (write_all-Owns fuel input t h o) λ r k p. Ends-return _ p

  run-Owns :
      IsPosix os
      → (cs : List Call) (t : TcpStreamTransport) (h : History) → Owns base t h
      → Ends (run os cs t) h (λ r k. Owns base r k)
  unfolding run
  run-Owns posix [] t h o = Ends-return _ o
  run-Owns posix (c ∷ cs) t h o =
      Ends-bind (step-Owns posix c t h o) λ next k p. run-Owns posix cs next k p

pub new_stream-Owns :
    (options : TcpStreamTransportOptions) (h : History)
    → IsClean h
    → Owns (live h) (new_stream options) h
unfolding new_stream
new_stream-Owns options h c = Owner-none h c

-- From a log whose calls all work on descriptors in use, whatever calls are made on a
-- `TcpStreamTransport` and whatever a POSIX system answers, during its life every system call works
-- on a descriptor that is in use at that moment (none is used after it is closed, closed twice, or
-- closed though it was never made), and after the destructor exactly the descriptors are in use
-- that were in use before the constructor.
pub lifetime_releases :
    (os : Os)
    → IsPosix os
    → (options : TcpStreamTransportOptions) (cs : List Call) (h : History) → IsClean h
    → let after = (lifetime os options cs h).1 in
      IsClean after × ((j : ℤ) → live after j ≡ live h j)
lifetime_releases os posix options cs h c = ended.at
  where
    ended : Ends (lifetime os options cs) h (λ r k. IsClean k × ((j : ℤ) → live k j ≡ live h j))
    ended =
        unfold lifetime in
        Ends-bind (run-Owns os (live h) posix cs _ h (new_stream-Owns options h c)) λ t k o.
          Ends-bind (close_stream-Owns os (live h) t k o)
            λ closed l p. Ends-return _ (p.0.clean, λ j. ground (arith, p.0.exact j, p.1))
