-- ===== src/Server/Outcomes.antt =====
-- The statuses of `Open` and `Accept`, and what they leave.
use dlms_transport.Prelude.{
  ℤ, ◌==ℤ◌, ◌≡◌, refl, Bool, true, false, not, ◌||◌, Option, none, some, if◌then◌else◌, arith,
}
use dlms_transport.Status.{
  Status, ok, not_open, timeout, would_block, open_failed, is_ok, is_timeout,
}
use dlms_transport.Os.{
  Os, History, invalid, Ends, Ends-return, Ends-bind, Ends-then, Ends-if, Ends-any,
}
use dlms_transport.Tcp.Socket.{is_would_block}
use dlms_transport.Server.Accepted.{AcceptedTcpStream, new_accepted}
use dlms_transport.Server.Listener.{TcpServerTransport, take_client, accept_client, accept}

-- What each status of `Accept` says of the listener, and of the pointer after it.
abbrev pub Accepts : TcpServerTransport → Status × Option AcceptedTcpStream → Type 0
Accepts t (ok, none) = ⊥
Accepts t (ok, some s) =
    (t.is_open ≡ true)
    × ((s.socket ==ℤ invalid) ≡ false)
    × (s ≡ new_accepted s.socket t.options.read_timeout t.options.write_timeout)
Accepts t (not_open, after) = (t.is_open ≡ false) × (after ≡ none)
Accepts t (timeout, after) = (t.is_open ≡ true) × (after ≡ none)
Accepts t (would_block, after) = (t.is_open ≡ true) × (after ≡ none)
Accepts t (open_failed, after) = (t.is_open ≡ true) × (after ≡ none)
Accepts t (_, after) = ⊥

module _ (os : Os) (t : TcpServerTransport) (up : t.is_open ≡ true) where
  take_client-Accepts :
      (fd : ℤ) (h : History)
      → (fd ==ℤ invalid) ≡ false
      → Ends (take_client os t fd) h (λ r k. Accepts t r)
  unfolding take_client new_accepted
  take_client-Accepts fd h valid = Ends-bind (Ends-any _ h) λ non_blocking k u.
      Ends-if non_blocking (λ e. Ends-return _ (up, valid, refl))
        (λ e. Ends-then (Ends-any _ k) λ l v. Ends-return _ (up, refl))

  accept_client-Accepts : (h : History) → Ends (accept_client os t) h (λ r k. Accepts t r)
  unfolding accept_client
  accept_client-Accepts h = Ends-bind (Ends-any _ h) λ client k u.
      Ends-if (not (client ==ℤ invalid)) (λ e. take_client-Accepts client k (ground arith))
        λ e. Ends-bind (Ends-any _ k) λ error l v. Ends-return _ (refusal (is_would_block os error))
    where
      refusal : (b : Bool) → Accepts t (if b then would_block else open_failed, none)
      refusal true = (up, refl)
      refusal false = (up, refl)

-- `Accept`, whatever the system answers, in every state and whatever the pointer held, returns one
-- of five statuses: `Ok`, and then the listener is open and the pointer holds an open stream on a
-- valid socket with the listener's timeouts; `NotOpen` exactly for a closed listener; or `Timeout`,
-- `WouldBlock` or `OpenFailed`. Unless the status is `Ok` the pointer is empty.
pub accept-Accepts :
    (os : Os) (c : Option AcceptedTcpStream) (t : TcpServerTransport) (h : History)
    → Accepts t (accept os c t h).0
accept-Accepts os c t h = ended.at
  where
    ended : Ends (accept os c t) h (λ r k. Accepts t r)
    ended =
        unfold accept in
        Ends-then (Ends-any _ h) λ k u.
          Ends-if (not t.is_open) (λ e. Ends-return _ (ground arith, refl))
            λ e. Ends-bind (Ends-any _ k) λ waited l v.
              let up : t.is_open ≡ true = ground arith in
              Ends-if (is_timeout waited) (λ f. Ends-return _ (up, refl))
                λ f.
                  Ends-if (not (is_ok waited) || not t.is_open) (λ g. Ends-return _ (up, refl))
                    (λ g. accept_client-Accepts os t up l)
