-- ===== src/Tcp/Addresses.antt =====
-- `Open` of the TCP client and the address lists.
use dlms_transport.Prelude.{
  ℤ, ◌+◌, ◌==ℤ◌, ◌==◌, ◌≡◌, false, ◌||◌, List, [], ◌∷◌, Option, none, some, arith, is_zero,
  is_negative, is_empty,
}
use dlms_transport.Status.{Status, open_failed, is_ok}
use dlms_transport.Timer.{TransportDuration}
use dlms_transport.Os.{
  Os, History, Address, invalid, return, obtained, released, Ends, Ends-return, Ends-bind,
  Ends-then, Ends-if, Ends-weaken, Holding, EndsHolding, Holding-refl, Holding-idle, free-Holding,
  call_close-Holding, call_getaddrinfo-Holding, call_socket-Holding, call_getfl-Holding,
  call_setfl-Holding, call_connect-Holding, call_select-Holding, call_socket_error-Holding,
  last_error-Holding, answer_count,
}
use dlms_transport.Tcp.Socket.{is_would_block, set_non_blocking, wait_for_socket, check_connected}
use dlms_transport.Tcp.Stream.{
  TcpStreamTransport, Attempt, retry, connected, give_up, await_connection, connect_candidate,
  configure_candidate, attempt, try_addresses, resolve_and_connect, open_stream,
}

module _ (os : Os) where
  pub set_non_blocking-Holding :
      (fd : ℤ) (h : History) → EndsHolding (set_non_blocking os fd) h (λ r. 0)
  unfolding set_non_blocking
  set_non_blocking-Holding fd h = Ends-bind (call_getfl-Holding os fd h) λ flags k p.
      Ends-if (is_negative flags) (λ e. Ends-return _ p)
        (λ e. Ends-bind (call_setfl-Holding os fd _ k) λ r l q. Ends-return _ (Holding-idle p q))

  wait_for_socket-Holding :
      (fd : ℤ) (t : TransportDuration) (h : History)
      → EndsHolding (wait_for_socket os fd false t) h (λ r. 0)
  unfolding wait_for_socket
  wait_for_socket-Holding fd t h =
      Ends-bind (call_select-Holding os fd false _ h) λ result k p. Ends-return _ p

  check_connected-Holding : (fd : ℤ) (h : History) → EndsHolding (check_connected os fd) h (λ r. 0)
  unfolding check_connected
  check_connected-Holding fd h =
      Ends-bind (call_socket_error-Holding os fd h) λ answer k p. Ends-return _ p

  module _ (t : TransportDuration) (h : History) where
    give_up-Holding :
        (fd : ℤ) (s : Status) (k : History)
        → Holding 0 h k
        → Ends (give_up os fd s) k (λ r m. Holding 0 h m)
    give_up-Holding fd s k p =
        Ends-then (call_close-Holding fd k) λ l q. Ends-return _ (Holding-idle p q)

    await_connection-Holding :
        (fd : ℤ) (k : History)
        → Holding 0 h k
        → Ends (await_connection os t fd) k (λ r m. Holding 0 h m)
    unfolding await_connection
    await_connection-Holding fd k p = Ends-bind (wait_for_socket-Holding fd t k) λ waited l q.
        Ends-bind {P = λ s m. Holding 0 h m}
          (Ends-if (is_ok waited)
            (λ e.
              Ends-weaken (check_connected-Holding fd l) λ s m x. Holding-idle p (Holding-idle q x))
            (λ e. Ends-return _ (Holding-idle p q)))
          λ status m x.
            Ends-if (is_ok status) (λ e. Ends-return _ x) (λ e. give_up-Holding fd status m x)

    connect_candidate-Holding :
        (a : Address) (s : Status) (fd : ℤ) (k : History)
        → Holding 0 h k
        → Ends (connect_candidate os t a s fd) k (λ r m. Holding 0 h m)
    unfolding connect_candidate
    connect_candidate-Holding a s fd k p = Ends-bind (call_connect-Holding os fd a k) λ result l q.
        Ends-if (is_zero result) (λ e. Ends-return _ (Holding-idle p q))
          λ e. Ends-bind (last_error-Holding os l) λ error m x.
            let kept = Holding-idle p (Holding-idle q x) in
            Ends-if (is_would_block os error) (λ f. await_connection-Holding fd m kept)
              (λ f. give_up-Holding fd s m kept)

    attempt-Holding :
        (a : Address) (s : Status) (k : History)
        → Holding 0 h k
        → Ends (attempt os t a s) k (λ r m. Holding 0 h m)
    unfolding attempt configure_candidate
    attempt-Holding a s k p = Ends-bind (call_socket-Holding os _ _ _ k) λ candidate l q.
        let made = Holding-idle p q in
        Ends-if (candidate ==ℤ invalid) (λ e. Ends-return _ made)
          λ e. Ends-bind (set_non_blocking-Holding candidate l) λ non_blocking m x.
            let kept = Holding-idle made x in
            Ends-if non_blocking (λ f. connect_candidate-Holding a s candidate m kept)
              (λ f. give_up-Holding candidate s m kept)

    try_addresses-Holding :
        (l : List Address) (s : Status) (k : History)
        → Holding 0 h k
        → Ends (try_addresses os t l s) k (λ r m. Holding 0 h m)
    unfolding try_addresses
    try_addresses-Holding [] s k p = Ends-return _ p
    try_addresses-Holding (a ∷ l) s k p =
        Ends-bind (attempt-Holding a s k p) (go (try_addresses-Holding l))
      where
        go :
            ((s : Status) (k : History)
              → Holding 0 h k
              → Ends (try_addresses os t l s) k (λ r m. Holding 0 h m))
            → (r : Attempt) (k : History) → Holding 0 h k
            → Ends
                (elim r [
                  | retry status ↦ try_addresses os t l status
                  | connected candidate ↦ return (connected candidate)
                ])
                k
                (λ r m. Holding 0 h m)
        go rest (retry s) k p = rest s k p
        go rest (connected fd) k p = Ends-return _ p

-- One `Open` of a `TcpStreamTransport`, in every state and whatever the system answers, releases as
-- many address lists as it obtained.
pub open_stream_releases :
    (os : Os) (t : TcpStreamTransport) (h : History)
    → let k = (open_stream os t h).1 in obtained k + released h ≡ obtained h + released k
open_stream_releases os t h = omega (arith, ended.at.balance)
  where
    resolved :
        (answer : Option (List Address)) (k : History)
        → Holding (answer_count answer) h k
        → Ends (resolve_and_connect os t answer) k (λ r m. Holding 0 h m)
    resolved none k p = unfold resolve_and_connect in Ends-return _ p
    resolved (some l) k p =
        unfold resolve_and_connect in
        Ends-bind
          (try_addresses-Holding os t.options.connect_timeout k l open_failed k (Holding-refl k))
          λ outcome m q. Ends-then (free-Holding l (Holding-idle p q)) λ n x. Ends-return _ x

    ended : EndsHolding (open_stream os t) h (λ r. 0)
    ended =
        unfold open_stream in
        Ends-if t.is_open (λ e. Ends-return _ (Holding-refl h))
          λ closed.
            Ends-if (is_empty t.options.host || t.options.port == 0)
              (λ e. Ends-return _ (Holding-refl h))
              λ e. Ends-bind (call_getaddrinfo-Holding os _ _ _ h) resolved
