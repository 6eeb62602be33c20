-- ===== src/Tcp/Custody.antt =====
-- Which descriptors the TCP client keeps in use: the helpers, and the loop of `Open`.
use dlms_transport.Prelude.{ℤ, ◌==ℤ◌, Bool, false, List, [], ◌∷◌, is_negative, is_zero}
use dlms_transport.Status.{Status, is_ok}
use dlms_transport.Timer.{TransportDuration}
use dlms_transport.Os.{
  Os, History, Address, invalid, Keeps, Gains, Keeps-refl, Keeps-trans, Works-trans, Keeps-Gains,
  Gains-Works, Gains-Drops, IsPosix, Ends, Ends-return, Ends-bind, Ends-then, Ends-if, Ends-weaken,
  return, EndsWorks, call_getfl-Ends, call_setfl-Ends, call_select-Ends, call_socket_error-Ends,
  call_connect-Ends, call_close-Ends, call_socket-Ends, last_error-Ends,
}
use dlms_transport.Os.{refused, made}
use dlms_transport.Tcp.Socket.{is_would_block, set_non_blocking, wait_for_socket, check_connected}
use dlms_transport.Tcp.Stream.{
  Attempt, retry, connected, give_up, await_connection, connect_candidate, configure_candidate,
  attempt, try_addresses,
}

-- An attempt that goes on keeps the descriptors, one that is connected gains its socket.
abbrev pub Holds : History → Attempt → History → Type 0
Holds h (retry s) k = Keeps h k
Holds h (connected fd) k = Gains fd h k

module _ (os : Os) where
  pub set_non_blocking-Works : (fd : ℤ) (h : History) → EndsWorks fd (set_non_blocking os fd) h
  unfolding set_non_blocking
  set_non_blocking-Works fd h = Ends-bind (call_getfl-Ends os fd h) λ flags k p.
      Ends-if (is_negative flags) (λ e. Ends-return _ p)
        (λ e. Ends-bind (call_setfl-Ends os fd _ k) λ r l q. Ends-return _ (Works-trans p q))

  pub wait_for_socket-Works :
      (fd : ℤ) (r : Bool) (t : TransportDuration) (h : History)
      → EndsWorks fd (wait_for_socket os fd r t) h
  unfolding wait_for_socket
  wait_for_socket-Works fd r t h =
      Ends-bind (call_select-Ends os fd r _ h) λ result k p. Ends-return _ p

  pub check_connected-Works : (fd : ℤ) (h : History) → EndsWorks fd (check_connected os fd) h
  unfolding check_connected
  check_connected-Works fd h =
      Ends-bind (call_socket_error-Ends os fd h) λ result k p. Ends-return _ p

  module _ (t : TransportDuration) where
    give_up-Holds :
        (fd : ℤ) (s : Status) (h k : History) → Gains fd h k → Ends (give_up os fd s) k (Holds h)
    give_up-Holds fd s h k g =
        Ends-then (call_close-Ends fd k) λ l d. Ends-return _ (Gains-Drops g d)

    await_connection-Holds :
        (fd : ℤ) (h k : History) → Gains fd h k → Ends (await_connection os t fd) k (Holds h)
    unfolding await_connection
    await_connection-Holds fd h k g = Ends-bind (wait_for_socket-Works fd false t k) λ waited l p.
        Ends-bind {P = λ s m. Gains fd h m}
          (Ends-if (is_ok waited)
            (λ e. record { at = Gains-Works (Gains-Works g p) (check_connected-Works fd l).at })
            (λ e. Ends-return _ (Gains-Works g p)))
          λ status m q.
            Ends-if (is_ok status) (λ e. Ends-return _ q) (λ e. give_up-Holds fd status h m q)

    connect_candidate-Holds :
        (a : Address) (s : Status) (fd : ℤ) (h k : History)
        → Gains fd h k
        → Ends (connect_candidate os t a s fd) k (Holds h)
    unfolding connect_candidate
    connect_candidate-Holds a s fd h k g = Ends-bind (call_connect-Ends os fd a k) λ result l p.
        Ends-if (is_zero result) (λ e. Ends-return _ (Gains-Works g p))
          (λ e. Ends-bind (last_error-Ends os fd l) λ error m q.
            let kept = Gains-Works (Gains-Works g p) q in
            Ends-if (is_would_block os error) (λ f. await_connection-Holds fd h m kept)
              (λ f. give_up-Holds fd s h m kept))

    configure_candidate-Holds :
        (a : Address) (s : Status) (fd : ℤ) (h k : History)
        → Gains fd h k
        → Ends (configure_candidate os t a s fd) k (Holds h)
    unfolding configure_candidate
    configure_candidate-Holds a s fd h k g =
        Ends-bind (set_non_blocking-Works fd k) λ non_blocking l p.
          let kept = Gains-Works g p in
          Ends-if non_blocking (λ e. connect_candidate-Holds a s fd h l kept)
            (λ e. give_up-Holds fd s h l kept)

    attempt-Holds :
        IsPosix os → (a : Address) (s : Status) (h : History) → Ends (attempt os t a s) h (Holds h)
    unfolding attempt
    attempt-Holds posix a s h = Ends-bind (call_socket-Ends os posix _ _ _ h) λ candidate k p.
        Ends-if (candidate ==ℤ invalid) (λ e. Ends-return _ (refused candidate e p))
          (λ e. configure_candidate-Holds a s candidate h k (made candidate e p))

    Holds-trans :
        {h k : History} (r : Attempt) (l : History) → Keeps h k → Holds k r l → Holds h r l
    Holds-trans (retry s) l p q = Keeps-trans p q
    Holds-trans (connected fd) l p q = Keeps-Gains p q

    pub try_addresses-Holds :
        IsPosix os
        → (l : List Address) (s : Status) (h : History) → Ends (try_addresses os t l s) h (Holds h)
    unfolding try_addresses
    try_addresses-Holds posix [] s h = Ends-return _ (Keeps-refl h)
    try_addresses-Holds posix (a ∷ l) s h =
        Ends-bind (attempt-Holds posix a s h) (go (try_addresses-Holds posix l))
      where
        go :
            ((s : Status) (k : History) → Ends (try_addresses os t l s) k (Holds k))
            → (r : Attempt) (k : History) → Holds h r k
            → Ends
                (elim r [
                  | retry status ↦ try_addresses os t l status
                  | connected candidate ↦ return (connected candidate)
                ])
                k
                (Holds h)
        go rest (retry s) k p = Ends-weaken (rest s k) λ r m q. Holds-trans r m p q
        go rest (connected fd) k p = Ends-return _ p
