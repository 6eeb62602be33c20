-- ===== src/Tcp/Opening.antt =====
-- `Open` of the TCP client: its statuses, and the object after each.
use dlms_transport.Prelude.{
  ℤ, ◌==ℤ◌, ◌==◌, ◌≡◌, refl, Bool, true, false, not, ◌||◌, is_zero, is_positive, is_empty,
  if◌then◌else◌, List, [], ◌∷◌, Option, none, some, arith,
}
use dlms_transport.Status.{
  Status, ok, already_open, invalid_argument, timeout, open_failed, write_failed, is_ok,
}
use dlms_transport.Timer.{TransportDuration}
use dlms_transport.Os.{
  Os, History, Address, return, invalid, Ends, Ends-return, Ends-bind, Ends-then, Ends-if, Ends-any,
}
use dlms_transport.Tcp.Socket.{is_would_block, wait_for_socket, check_connected}
use dlms_transport.Tcp.Stream.{
  TcpStreamTransport, Attempt, retry, connected, give_up, await_connection, connect_candidate,
  configure_candidate, attempt, try_addresses, opened, resolve_and_connect, open_stream,
}

-- The statuses of an attempt that failed.
abbrev Failure : Status → Type 0
Failure timeout = Unit {0}
Failure open_failed = Unit {0}
Failure write_failed = Unit {0}
Failure _ = ⊥

-- A wait or a test that is not `Ok` is such a failure.
abbrev OkOrFailure : Status → Type 0
OkOrFailure ok = Unit {0}
OkOrFailure s = Failure s

abbrev Attempted : Attempt → Type 0
Attempted (retry s) = Failure s
Attempted (connected fd) = (fd ==ℤ invalid) ≡ false

abbrev pub bad_options : TcpStreamTransport → Bool
bad_options t = is_empty t.options.host || t.options.port == 0

-- What each status says of the object before and after.
abbrev pub Opens : TcpStreamTransport → Status × TcpStreamTransport → Type 0
Opens t (ok, after) =
    (t.is_open ≡ false)
    × (bad_options t ≡ false)
    × (fd : ℤ) × ((fd ==ℤ invalid) ≡ false)
    × (after ≡ record t { socket = fd; is_open = true })
Opens t (already_open, after) = (t.is_open ≡ true) × (after ≡ t)
Opens t (invalid_argument, after) = (t.is_open ≡ false) × (bad_options t ≡ true) × (after ≡ t)
Opens t (timeout, after) = (t.is_open ≡ false) × (bad_options t ≡ false) × (after ≡ t)
Opens t (open_failed, after) = (t.is_open ≡ false) × (bad_options t ≡ false) × (after ≡ t)
Opens t (write_failed, after) = (t.is_open ≡ false) × (bad_options t ≡ false) × (after ≡ t)
Opens t (_, after) = ⊥

module _ (os : Os) where
  wait_for_socket-Failure :
      (fd : ℤ) (t : TransportDuration) (h : History)
      → Ends (wait_for_socket os fd false t) h (λ s k. OkOrFailure s)
  unfolding wait_for_socket
  wait_for_socket-Failure fd t h =
      Ends-bind (Ends-any _ h)
        λ result k u. Ends-return _ (ranged (is_positive result) (is_zero result))
    where
      ranged : (p z : Bool) → OkOrFailure (if p then ok else if z then timeout else write_failed)
      ranged true z = tt
      ranged false true = tt
      ranged false false = tt

  check_connected-Failure :
      (fd : ℤ) (h : History) → Ends (check_connected os fd) h (λ s k. OkOrFailure s)
  unfolding check_connected
  check_connected-Failure fd h =
      Ends-bind (Ends-any _ h)
        λ answer k u. Ends-return _ (ranged (not (is_zero answer.0)) (is_zero answer.1))
    where
      ranged : (p z : Bool) → OkOrFailure (if p then open_failed else if z then ok else open_failed)
      ranged true z = tt
      ranged false true = tt
      ranged false false = tt

  not_ok-Failure : (s : Status) → is_ok s ≡ false → OkOrFailure s → Failure s
  not_ok-Failure ok e f = absurd (ground arith)
  not_ok-Failure _ e f = f

  give_up-Attempted :
      (fd : ℤ) (s : Status) (h : History)
      → Failure s
      → Ends (give_up os fd s) h (λ r k. Attempted r)
  give_up-Attempted fd s h f = Ends-then (Ends-any _ h) λ k u. Ends-return _ f

  module _ (t : TransportDuration) where
    await_connection-Attempted :
        (fd : ℤ) (h : History)
        → (fd ==ℤ invalid) ≡ false
        → Ends (await_connection os t fd) h (λ r k. Attempted r)
    unfolding await_connection
    await_connection-Attempted fd h valid = Ends-bind (wait_for_socket-Failure fd t h) λ waited k p.
        Ends-bind {P = λ s l. OkOrFailure s}
          (Ends-if (is_ok waited) (λ e. check_connected-Failure fd k) (λ e. Ends-return _ p))
          λ status l q.
            Ends-if (is_ok status) (λ e. Ends-return _ valid)
              (λ e. give_up-Attempted fd status l (not_ok-Failure status e q))

    configure_candidate-Attempted :
        (a : Address) (s : Status) (fd : ℤ) (h : History)
        → (fd ==ℤ invalid) ≡ false
        → Failure s
        → Ends (configure_candidate os t a s fd) h (λ r k. Attempted r)
    unfolding configure_candidate connect_candidate
    configure_candidate-Attempted a s fd h valid f = Ends-bind (Ends-any _ h) λ non_blocking k u.
        Ends-if non_blocking
          (λ e. Ends-bind (Ends-any _ k) λ result l v.
            Ends-if (is_zero result) (λ g. Ends-return _ valid)
              λ g. Ends-bind (Ends-any _ l) λ error m w.
                Ends-if (is_would_block os error) (λ i. await_connection-Attempted fd m valid)
                  (λ i. give_up-Attempted fd s m f))
          (λ e. give_up-Attempted fd s k f)

    attempt-Attempted :
        (a : Address) (s : Status) (h : History)
        → Failure s
        → Ends (attempt os t a s) h (λ r k. Attempted r)
    unfolding attempt
    attempt-Attempted a s h f = Ends-bind (Ends-any _ h) λ candidate k u.
        Ends-if (candidate ==ℤ invalid) (λ e. Ends-return _ f)
          (λ e. configure_candidate-Attempted a s candidate k e f)

    try_addresses-Attempted :
        (l : List Address) (s : Status) (h : History)
        → Failure s
        → Ends (try_addresses os t l s) h (λ r k. Attempted r)
    unfolding try_addresses
    try_addresses-Attempted [] s h f = Ends-return _ f
    try_addresses-Attempted (a ∷ l) s h f =
        Ends-bind (attempt-Attempted a s h f) (go (try_addresses-Attempted l))
      where
        go :
            ((s : Status) (k : History)
              → Failure s
              → Ends (try_addresses os t l s) k (λ r m. Attempted r))
            → (r : Attempt) (k : History) → Attempted r
            → Ends
                (elim r [
                  | retry status ↦ try_addresses os t l status
                  | connected candidate ↦ return (connected candidate)
                ])
                k
                (λ r m. Attempted r)
        go rest (retry s) k p = rest s k p
        go rest (connected fd) k p = Ends-return _ p

  Failure-Opens :
      (t : TcpStreamTransport) (s : Status)
      → t.is_open ≡ false
      → bad_options t ≡ false
      → Failure s
      → Opens t (s, t)
  Failure-Opens t timeout c g f = (c, g, refl)
  Failure-Opens t open_failed c g f = (c, g, refl)
  Failure-Opens t write_failed c g f = (c, g, refl)
  Failure-Opens t _ c g f = absurd f

  opened-Opens :
      (t : TcpStreamTransport) (r : Attempt)
      → t.is_open ≡ false
      → bad_options t ≡ false
      → Attempted r
      → Opens t (opened os t r)
  opened-Opens t (retry s) c g f = Failure-Opens t s c g f
  opened-Opens t (connected fd) c g valid = (c, g, fd, valid, refl)

-- `Open` of the TCP client, whatever the system answers and in every state, returns one of six
-- statuses: `Ok`, and then the object was closed, its options were complete, and it is open with a
-- valid socket, and otherwise as it was; `AlreadyOpen` exactly for an open object;
-- `InvalidArgument` exactly for a closed one without host or port; or `Timeout`, `OpenFailed` or
-- `WriteFailed`. The object stays as it was unless the status is `Ok`.
pub open_stream-Opens :
    (os : Os) (t : TcpStreamTransport) (h : History) → Opens t (open_stream os t h).0
open_stream-Opens os t h = ended.at
  where
    resolved :
        (addresses : Option (List Address)) (k : History)
        → t.is_open ≡ false
        → bad_options t ≡ false
        → Ends (resolve_and_connect os t addresses) k (λ r l. Opens t r)
    resolved none k c g = unfold resolve_and_connect in Ends-return _ (c, g, refl)
    resolved (some addresses) k c g =
        unfold resolve_and_connect in
        Ends-bind (try_addresses-Attempted os _ addresses open_failed k tt) λ outcome l p.
          Ends-then (Ends-any _ l) λ m u. Ends-return _ (opened-Opens os t outcome c g p)

    ended : Ends (open_stream os t) h (λ r k. Opens t r)
    ended =
        unfold open_stream in
        Ends-if t.is_open (λ e. Ends-return _ (e, refl))
          λ closed.
            Ends-if (bad_options t) (λ e. Ends-return _ (closed, e, refl))
              λ good. Ends-bind (Ends-any _ h) λ addresses k u. resolved addresses k closed good
