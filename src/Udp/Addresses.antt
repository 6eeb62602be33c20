-- ===== src/Udp/Addresses.antt =====
-- `Open` of the UDP transport and the address lists.
use dlms_transport.Prelude.{
  ℕ, ℤ, ◌+◌, ◌==ℤ◌, ◌≡◌, Bool, true, not, List, [], ◌∷◌, Option, none, some, if◌then◌else◌, arith,
  is_zero, is_empty,
}
use dlms_transport.Buffer.{Bytes}
use dlms_transport.Os.{
  Os, History, Address, invalid, return, obtained, released, Ends, Ends-return, Ends-bind,
  Ends-then, Ends-if, Ends-weaken, list_count, Holding, EndsHolding, Holding-refl, Holding-idle,
  call_freeaddrinfo, free-Holding, call_close-Holding, call_getaddrinfo-Holding,
  call_socket-Holding, call_bind-Holding, call_connect-Holding, answer_count,
}
use dlms_transport.Tcp.Addresses.{set_non_blocking-Holding}
use dlms_transport.Udp.Socket.{addresses_or_null, resolve_udp_address}
use dlms_transport.Udp.Transport.{
  UdpTransport, UdpTransportOptions, bad_remote, has_remote, discard, bind_any, connect_remote,
  bind_candidate, configure_candidate, attempt, try_addresses, open_over, first_address,
  open_transport,
}

module _ (os : Os) where
  resolve_udp_address-Holding :
      (host : Bytes) (port family flags : ℕ) (h : History)
      → EndsHolding (resolve_udp_address os host port family flags) h list_count
  unfolding resolve_udp_address
  resolve_udp_address-Holding host port family flags h =
      Ends-bind (call_getaddrinfo-Holding os _ _ _ h) λ answer k p. Ends-return _ (moved answer p)
    where
      moved :
          (answer : Option (List Address)) {k : History}
          → Holding (answer_count answer) h k
          → Holding (list_count (addresses_or_null os answer)) h k
      moved none p = p
      moved (some l) p = p

  first_address-Holding :
      (options : UdpTransportOptions) (h : History)
      → EndsHolding (first_address os options) h list_count
  first_address-Holding options h =
      Ends-if (has_remote options) (λ e. resolve_udp_address-Holding _ _ _ _ h)
        (λ e. resolve_udp_address-Holding _ _ _ _ h)

  bind_any-Holding :
      (fd : ℤ) (l : List Address) (h : History) → EndsHolding (bind_any os fd l) h (λ r. 0)
  unfolding bind_any
  bind_any-Holding fd [] h = Ends-return _ (Holding-refl h)
  bind_any-Holding fd (a ∷ l) h = Ends-bind (call_bind-Holding os fd a h) λ result k p.
      Ends-if (is_zero result) (λ e. Ends-return _ p)
        (λ e. Ends-weaken (bind_any-Holding fd l k) λ r m q. Holding-idle p q)

  discard-Holding : (fd : ℤ) (h : History) → EndsHolding (discard os fd) h (λ r. 0)
  discard-Holding fd h = Ends-then (call_close-Holding fd h) λ l d. Ends-return _ d

  connect_remote-Holding :
      (remote : Bool) (a : Address) (fd : ℤ) (h : History)
      → EndsHolding (connect_remote os remote a fd) h (λ r. 0)
  unfolding connect_remote
  connect_remote-Holding remote a fd h =
      Ends-if (not remote) (λ e. Ends-return _ (Holding-refl h))
        λ e. Ends-bind (call_connect-Holding os fd a h) λ result l p.
          Ends-if (is_zero result) (λ f. Ends-return _ p)
            (λ f. Ends-weaken (discard-Holding fd l) λ r m q. Holding-idle p q)

  module _ (options : UdpTransportOptions) where
    bind_candidate-Holding :
        (a : Address) (fd : ℤ) (h : History)
        → EndsHolding (bind_candidate os options a fd) h (λ r. 0)
    unfolding bind_candidate
    bind_candidate-Holding a fd h = Ends-bind (resolve_udp_address-Holding _ _ _ _ h) λ locals k p.
        Ends-bind (bind_any-Holding fd locals k) λ bound l q.
          Ends-then {P = λ u m. Holding 0 h m} (freed locals (Holding-idle p q)) λ m x.
            Ends-if (not bound) (λ e. Ends-weaken (discard-Holding fd m) λ r n y. Holding-idle x y)
              (λ e.
                Ends-weaken (connect_remote-Holding (has_remote options) a fd m)
                  λ r n y. Holding-idle x y)
      where
        freed :
            (locals : List Address) {l : History}
            → Holding (list_count locals) h l
            → Ends
                (if is_empty locals then return tt else call_freeaddrinfo locals)
                l
                (λ u m. Holding 0 h m)
        freed [] p = Ends-return tt p
        freed (a ∷ l) p = free-Holding (a ∷ l) p

    attempt-Holding : (a : Address) (h : History) → EndsHolding (attempt os options a) h (λ r. 0)
    unfolding attempt configure_candidate
    attempt-Holding a h = Ends-bind (call_socket-Holding os _ _ _ h) λ candidate k p.
        Ends-if (candidate ==ℤ invalid) (λ e. Ends-return _ p)
          λ e. Ends-bind (set_non_blocking-Holding os candidate k) λ non_blocking l q.
            Ends-if (not non_blocking)
              (λ f.
                Ends-weaken (discard-Holding candidate l)
                  λ r m x. Holding-idle p (Holding-idle q x))
              (λ f.
                Ends-weaken (bind_candidate-Holding a candidate l)
                  λ r m x. Holding-idle p (Holding-idle q x))

    try_addresses-Holding :
        (l : List Address) (h : History) → EndsHolding (try_addresses os options l) h (λ r. 0)
    unfolding try_addresses
    try_addresses-Holding [] h = Ends-return _ (Holding-refl h)
    try_addresses-Holding (a ∷ l) h = Ends-bind (attempt-Holding a h) (go (try_addresses-Holding l))
      where
        go :
            ((k : History) → EndsHolding (try_addresses os options l) k (λ r. 0))
            → (r : Option ℤ) (k : History) → Holding 0 h k
            → Ends
                (elim r [
                  | none ↦ try_addresses os options l
                  | some candidate ↦ return (some candidate)
                ])
                k
                (λ s m. Holding 0 h m)
        go rest none k p = Ends-weaken (rest k) λ s m q. Holding-idle p q
        go rest (some fd) k p = Ends-return _ p

-- One `Open` of a `UdpTransport`, in every state and whatever the system answers, releases as many
-- address lists as it obtained, those of the addresses that it tried and those that each candidate
-- was bound with, on every path out of its loops.
pub open_transport_releases :
    (os : Os) (t : UdpTransport) (h : History)
    → let k = (open_transport os t h).1 in obtained k + released h ≡ obtained h + released k
open_transport_releases os t h = omega (arith, ended.at.balance)
  where
    over :
        (addresses : List Address) (k : History)
        → Holding (list_count addresses) h k
        → Ends (open_over os t addresses) k (λ r m. Holding 0 h m)
    over addresses k p =
        unfold open_over in
        Ends-bind (try_addresses-Holding os t.options addresses k) λ outcome l q.
          Ends-then (free-Holding addresses (Holding-idle p q)) λ m x. Ends-return _ x

    null :
        (addresses : List Address) {k : History}
        → is_empty addresses ≡ true
        → Holding (list_count addresses) h k
        → Holding 0 h k
    null [] e p = p
    null (a ∷ l) e p = absurd (ground arith)

    ended : EndsHolding (open_transport os t) h (λ r. 0)
    ended =
        unfold open_transport in
        Ends-if t.is_open (λ e. Ends-return _ (Holding-refl h))
          λ closed.
            Ends-if (bad_remote t.options) (λ e. Ends-return _ (Holding-refl h))
              λ e. Ends-bind (first_address-Holding os t.options h) λ addresses k p.
                Ends-if (is_empty addresses) (λ f. Ends-return _ (null addresses f p))
                  (λ f. over addresses k p)
