-- ===== src/Server/Custody.antt =====
-- Which descriptors the listener keeps in use: the loop of `Open`.
use dlms_transport.Prelude.{ℕ, ℤ, ◌==ℤ◌, not, is_zero, List, [], ◌∷◌, Option, none, some}
use dlms_transport.Os.{
  Os, History, Address, invalid, Keeps, Gains, Keeps-refl, Keeps-trans, Keeps-Gains, Gains-Works,
  Gains-Drops, IsPosix, Ends, Ends-return, Ends-bind, Ends-then, Ends-if, Ends-weaken, return,
  EndsWorks, refused, made, call_socket-Ends, call_reuse_address-Ends, call_bind-Ends,
  call_listen-Ends, call_getsockname-Ends, call_close-Ends,
}
use dlms_transport.Tcp.Custody.{set_non_blocking-Works}
use dlms_transport.Server.Listener.{
  socket_local_port, discard, listen_candidate, configure_candidate, attempt, try_addresses,
}

-- An attempt that goes on keeps the descriptors, one that succeeds gains its socket.
abbrev pub Holds : History → Option (ℤ × ℕ) → History → Type 0
Holds h none k = Keeps h k
Holds h (some listening) k = Gains listening.0 h k

module _ (os : Os) where
  socket_local_port-Works : (fd : ℤ) (h : History) → EndsWorks fd (socket_local_port os fd) h
  unfolding socket_local_port
  socket_local_port-Works fd h =
      Ends-bind (call_getsockname-Ends os fd h) λ name k p. Ends-return _ p

  discard-Holds : (fd : ℤ) (h k : History) → Gains fd h k → Ends (discard os fd) k (Holds h)
  discard-Holds fd h k g = Ends-then (call_close-Ends fd k) λ l d. Ends-return _ (Gains-Drops g d)

  module _ (backlog : ℤ) where
    listen_candidate-Holds :
        (fd : ℤ) (h k : History) → Gains fd h k → Ends (listen_candidate os backlog fd) k (Holds h)
    unfolding listen_candidate
    listen_candidate-Holds fd h k g = Ends-bind (call_listen-Ends os fd backlog k) λ listening l p.
        let kept = Gains-Works g p in
        Ends-if (not (is_zero listening)) (λ e. discard-Holds fd h l kept)
          λ e.
            Ends-bind (socket_local_port-Works fd l) λ port m q. Ends-return _ (Gains-Works kept q)

    configure_candidate-Holds :
        (a : Address) (fd : ℤ) (h k : History)
        → Gains fd h k
        → Ends (configure_candidate os backlog a fd) k (Holds h)
    unfolding configure_candidate
    configure_candidate-Holds a fd h k g = Ends-bind (call_reuse_address-Ends os fd k) λ reused l p.
        Ends-bind (set_non_blocking-Works os fd l) λ non_blocking m q.
          let kept = Gains-Works (Gains-Works g p) q in
          Ends-if (not non_blocking) (λ e. discard-Holds fd h m kept)
            λ e. Ends-bind (call_bind-Ends os fd a m) λ bound n x.
              let still = Gains-Works kept x in
              Ends-if (not (is_zero bound)) (λ f. discard-Holds fd h n still)
                (λ f. listen_candidate-Holds fd h n still)

    attempt-Holds :
        IsPosix os → (a : Address) (h : History) → Ends (attempt os backlog a) h (Holds h)
    unfolding attempt
    attempt-Holds posix a h = Ends-bind (call_socket-Ends os posix _ _ _ h) λ candidate k p.
        Ends-if (candidate ==ℤ invalid) (λ e. Ends-return _ (refused candidate e p))
          (λ e. configure_candidate-Holds a candidate h k (made candidate e p))

    Holds-trans :
        {h k : History} (r : Option (ℤ × ℕ)) (l : History) → Keeps h k → Holds k r l → Holds h r l
    Holds-trans none l p q = Keeps-trans p q
    Holds-trans (some listening) l p q = Keeps-Gains p q

    pub try_addresses-Holds :
        IsPosix os
        → (l : List Address) (h : History) → Ends (try_addresses os backlog l) h (Holds h)
    unfolding try_addresses
    try_addresses-Holds posix [] h = Ends-return _ (Keeps-refl h)
    try_addresses-Holds posix (a ∷ l) h =
        Ends-bind (attempt-Holds posix a h) (go (try_addresses-Holds posix l))
      where
        go :
            ((k : History) → Ends (try_addresses os backlog l) k (Holds k))
            → (r : Option (ℤ × ℕ)) (k : History) → Holds h r k
            → Ends
                (elim r [
                  | none ↦ try_addresses os backlog l
                  | some listening ↦ return (some listening)
                ])
                k
                (Holds h)
        go rest none k p = Ends-weaken (rest k) λ r m q. Holds-trans r m p q
        go rest (some listening) k p = Ends-return _ p
