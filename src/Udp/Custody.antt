-- ===== src/Udp/Custody.antt =====
-- Which descriptors the UDP transport keeps in use: the helpers, and the loop of `Open`.
use dlms_transport.Prelude.{
  ℕ, ℤ, ◌==ℤ◌, Bool, not, List, [], ◌∷◌, Option, none, some, is_zero, is_empty,
}
use dlms_transport.Buffer.{Bytes}
use dlms_transport.Os.{
  Os, History, Address, invalid, Keeps, Keeps-refl, Keeps-trans, Keeps-Gains, Works-refl,
  Works-trans, Gains, Gains-Works, Gains-Keeps, Gains-Drops, IsPosix, Ends, Ends-return, Ends-bind,
  Ends-then, Ends-if, Ends-weaken, EndsWorks, EndsKeeps, refused, made, return,
  call_getaddrinfo-Ends, call_freeaddrinfo-Ends, call_close-Ends, call_socket-Ends, call_bind-Ends,
  call_connect-Ends,
}
use dlms_transport.Tcp.Custody.{set_non_blocking-Works}
use dlms_transport.Udp.Socket.{resolve_udp_address}
use dlms_transport.Udp.Transport.{
  UdpTransportOptions, has_remote, discard, bind_any, connect_remote, bind_candidate,
  configure_candidate, attempt, try_addresses, first_address,
}

-- An attempt that goes on keeps the descriptors, one that succeeds gains its socket.
abbrev pub Holds : History → Option ℤ → History → Type 0
Holds h none k = Keeps h k
Holds h (some fd) k = Gains fd h k

module _ (os : Os) where
  resolve_udp_address-Keeps :
      (host : Bytes) (port family flags : ℕ) (h : History)
      → EndsKeeps (resolve_udp_address os host port family flags) h
  unfolding resolve_udp_address
  resolve_udp_address-Keeps host port family flags h =
      Ends-bind (call_getaddrinfo-Ends os _ _ _ h) λ answer k p. Ends-return _ p

  pub first_address-Keeps :
      (options : UdpTransportOptions) (h : History) → EndsKeeps (first_address os options) h
  first_address-Keeps options h =
      Ends-if (has_remote options) (λ e. resolve_udp_address-Keeps _ _ _ _ h)
        (λ e. resolve_udp_address-Keeps _ _ _ _ h)

  bind_any-Works : (fd : ℤ) (l : List Address) (h : History) → EndsWorks fd (bind_any os fd l) h
  unfolding bind_any
  bind_any-Works fd [] h = Ends-return _ (Works-refl fd h)
  bind_any-Works fd (a ∷ l) h = Ends-bind (call_bind-Ends os fd a h) λ result k p.
      Ends-if (is_zero result) (λ e. Ends-return _ p)
        (λ e. Ends-weaken (bind_any-Works fd l k) λ r m q. Works-trans p q)

  discard-Holds : (fd : ℤ) (h k : History) → Gains fd h k → Ends (discard os fd) k (Holds h)
  discard-Holds fd h k g = Ends-then (call_close-Ends fd k) λ l d. Ends-return _ (Gains-Drops g d)

  connect_remote-Holds :
      (remote : Bool) (a : Address) (fd : ℤ) (h k : History)
      → Gains fd h k
      → Ends (connect_remote os remote a fd) k (Holds h)
  unfolding connect_remote
  connect_remote-Holds remote a fd h k g =
      Ends-if (not remote) (λ e. Ends-return _ g)
        λ e. Ends-bind (call_connect-Ends os fd a k) λ result l p.
          Ends-if (is_zero result) (λ f. Ends-return _ (Gains-Works g p))
            (λ f. discard-Holds fd h l (Gains-Works g p))

  module _ (options : UdpTransportOptions) where
    bind_candidate-Holds :
        (a : Address) (fd : ℤ) (h k : History)
        → Gains fd h k
        → Ends (bind_candidate os options a fd) k (Holds h)
    unfolding bind_candidate
    bind_candidate-Holds a fd h k g = Ends-bind (resolve_udp_address-Keeps _ _ _ _ k) λ locals l p.
        Ends-bind (bind_any-Works fd locals l) λ bound m q.
          let held = Gains-Works (Gains-Keeps g p) q in
          Ends-then {P = λ u n. Gains fd h n}
            (Ends-if (is_empty locals) (λ e. Ends-return _ held)
              (λ e. Ends-weaken (call_freeaddrinfo-Ends locals m) (λ u n x. Gains-Keeps held x)))
            λ n x.
              Ends-if (not bound) (λ e. discard-Holds fd h n x)
                (λ e. connect_remote-Holds (has_remote options) a fd h n x)

    configure_candidate-Holds :
        (a : Address) (fd : ℤ) (h k : History)
        → Gains fd h k
        → Ends (configure_candidate os options a fd) k (Holds h)
    unfolding configure_candidate
    configure_candidate-Holds a fd h k g =
        Ends-bind (set_non_blocking-Works os fd k) λ non_blocking l p.
          let kept = Gains-Works g p in
          Ends-if (not non_blocking) (λ e. discard-Holds fd h l kept)
            (λ e. bind_candidate-Holds a fd h l kept)

    attempt-Holds :
        IsPosix os → (a : Address) (h : History) → Ends (attempt os options a) h (Holds h)
    unfolding attempt
    attempt-Holds posix a h = Ends-bind (call_socket-Ends os posix _ _ _ h) λ candidate k p.
        Ends-if (candidate ==ℤ invalid) (λ e. Ends-return _ (refused candidate e p))
          (λ e. configure_candidate-Holds a candidate h k (made candidate e p))

    Holds-trans :
        {h k : History} (r : Option ℤ) (l : History) → Keeps h k → Holds k r l → Holds h r l
    Holds-trans none l p q = Keeps-trans p q
    Holds-trans (some fd) l p q = Keeps-Gains p q

    pub try_addresses-Holds :
        IsPosix os
        → (l : List Address) (h : History) → Ends (try_addresses os options l) h (Holds h)
    unfolding try_addresses
    try_addresses-Holds posix [] h = Ends-return _ (Keeps-refl h)
    try_addresses-Holds posix (a ∷ l) h =
        Ends-bind (attempt-Holds posix a h) (go (try_addresses-Holds posix l))
      where
        go :
            ((k : History) → Ends (try_addresses os options l) k (Holds k))
            → (r : Option ℤ) (k : History) → Holds h r k
            → Ends
                (elim r [
                  | none ↦ try_addresses os options l
                  | some candidate ↦ return (some candidate)
                ])
                k
                (Holds h)
        go rest none k p = Ends-weaken (rest k) λ r m q. Holds-trans r m p q
        go rest (some fd) k p = Ends-return _ p
