-- ===== src/Tls/Closing.antt =====
-- The TLS stream follows no null pointer, and leaves the lower stream closed.
use dlms_transport.Prelude.{
  ◌≡◌, refl, sym, true, false, not, ◌&&◌, if_cases, List, [], ◌∷◌, Option, none, some, arith,
}
use dlms_transport.Status.{Status, ok, is_ok, is_already_open}
use dlms_transport.Buffer.{Input, bad_input, Output, bad_output}
use dlms_transport.ByteStream.{ByteStream, IsByteStream}
use dlms_transport.Tls.Stream.{
  TlsStreamTransport, TlsStreamTransportOptions, TlsStreamBackend, Outcome, is_null, new_stream,
  has_valid_configuration, shaken, connect, open_stream, close_lower, close_both, close_stream,
  is_lower_open, read_through, read_some, write_through, write_all,
}
use dlms_transport.Tls.Session.{
  Call, opens, closes, reads, writes, Point, after_open, after_transfer, step, run, destroy,
  lifetime,
}

-- A lower stream, if there is one, keeps its contract.
abbrev pub Lawful : {W : Type 0} → Option (ByteStream W) → Type 0
Lawful none = Unit {0}
Lawful (some lower) = IsByteStream lower

-- A transfer that follows no null pointer.
abbrev Transfers : {A : Type 0} → Option A → Type 0
Transfers none = ⊥
Transfers (some r) = Unit {0}

module _ {W : Type 0} where
  -- The end of a life: no null pointer was followed, and both streams are closed.
  abbrev pub Closed : Option (ByteStream W) → Point W → Type 0
  Closed lower none = ⊥
  Closed lower (some p) = (p.0.is_open ≡ false) × (is_lower_open lower p.1 ≡ false)

  -- An object that is open has both its pointers.
  pub record Sound (lower : Option (ByteStream W)) (backend : Option (TlsStreamBackend W))
      (t : TlsStreamTransport W) : Type 0 where
    pub same_lower : t.lower ≡ lower
    pub same_backend : t.backend ≡ backend
    pub complete : t.is_open ≡ true → (is_null lower ≡ false) × (is_null backend ≡ false)

  abbrev pub SoundPoint : Option (ByteStream W) → Option (TlsStreamBackend W) → Point W → Type 0
  SoundPoint lower backend none = ⊥
  SoundPoint lower backend (some p) = Sound lower backend p.0

  module _ (lower : Option (ByteStream W)) (backend : Option (TlsStreamBackend W)) where
    valid_complete :
        (t : TlsStreamTransport W)
        → t.lower ≡ lower
        → t.backend ≡ backend
        → has_valid_configuration t ≡ true
        → (is_null lower ≡ false) × (is_null backend ≡ false)
    valid_complete t l b e = rw (← l, ← b) (ground arith, ground arith)

  connect-Sound :
      (lower : Option (ByteStream W)) (backend : Option (TlsStreamBackend W))
      (t : TlsStreamTransport W) (w : W)
      → Sound lower backend t
      → (is_null lower ≡ false) × (is_null backend ≡ false)
      → SoundPoint lower backend (after_open (connect t lower backend w))
  unfolding connect shaken
  connect-Sound none backend t w s c = absurd (ground (arith, c.0))
  connect-Sound (some lower) none t w s c = absurd (ground (arith, c.1))
  connect-Sound (some lower) (some backend) t w s c =
      if_cases {A = Outcome W} (λ r. SoundPoint (some lower) (some backend) (after_open r))
        (not (is_ok answer.0) && not (is_already_open answer.0)) {x = some (answer.0, t, answer.1)}
        {y = shaken lower t (backend.handshake lower t.options answer.1)} (λ e. s)
        λ e. handshaken (backend.handshake lower t.options answer.1)
    where
      answer : Status × W
      answer = lower.open_stream w

      opened : Sound (some lower) (some backend) (record t { is_open = true })
      opened = record {
        same_lower = s.same_lower;
        same_backend = s.same_backend;
        complete = λ g. c;
      }

      handshaken :
          (r : Status × W) → SoundPoint (some lower) (some backend) (after_open (shaken lower t r))
      handshaken r =
          if_cases {A = Outcome W} (λ r. SoundPoint (some lower) (some backend) (after_open r))
            (is_ok r.0) {x = some (ok, record t { is_open = true }, r.1)}
            {y = some (r.0, t, (lower.close_stream r.1).1)} (λ f. opened) (λ f. s)

  SoundPoint-subst :
      {l lower : Option (ByteStream W)} {b backend : Option (TlsStreamBackend W)} (p : Point W)
      → l ≡ lower
      → b ≡ backend
      → SoundPoint l b p
      → SoundPoint lower backend p
  SoundPoint-subst p l b s = rw (← l, ← b) s

  Sound-self :
      (lower : Option (ByteStream W)) (backend : Option (TlsStreamBackend W))
      (t : TlsStreamTransport W)
      → Sound lower backend t
      → Sound t.lower t.backend t
  Sound-self lower backend t s = record {
    same_lower = refl;
    same_backend = refl;
    complete = λ e. rw (s.same_lower, s.same_backend) (s.complete e);
  }

  module _ (lower : Option (ByteStream W)) (backend : Option (TlsStreamBackend W)) where
    open_stream-Sound :
        (t : TlsStreamTransport W) (w : W)
        → Sound lower backend t
        → SoundPoint lower backend (after_open (open_stream t w))
    unfolding open_stream
    open_stream-Sound t w s =
        if_cases {A = Outcome W} (λ r. SoundPoint lower backend (after_open r)) t.is_open (λ e. s)
          λ e.
            if_cases {A = Outcome W} (λ r. SoundPoint lower backend (after_open r))
              (not (has_valid_configuration t)) (λ f. s)
              (λ f. SoundPoint-subst _ s.same_lower s.same_backend (
                connect-Sound t.lower t.backend t w (Sound-self lower backend t s)
                  (valid_complete t.lower t.backend t refl refl (ground arith))))

    close_stream-Sound :
        (t : TlsStreamTransport W) (w : W)
        → Sound lower backend t
        → Sound lower backend (close_stream t w).1
    unfolding close_stream
    close_stream-Sound t w s =
        if_cases {A = Status × TlsStreamTransport W × W} (λ r. Sound lower backend r.1)
          (not t.is_open) {x = (ok, t, (close_lower t.lower w).1)} (λ e. s)
          λ e. record {
            same_lower = s.same_lower;
            same_backend = s.same_backend;
            complete = λ f. absurd (ground arith);
          }

  read_through-Transfers :
      (lower : Option (ByteStream W)) (backend : Option (TlsStreamBackend W)) (output : Output)
      (w : W)
      → (is_null lower ≡ false) × (is_null backend ≡ false)
      → Transfers (read_through lower backend output w)
  read_through-Transfers none backend output w c = absurd (ground (arith, c.0))
  read_through-Transfers (some lower) none output w c = absurd (ground (arith, c.1))
  read_through-Transfers (some lower) (some backend) output w c = tt

  write_through-Transfers :
      (lower : Option (ByteStream W)) (backend : Option (TlsStreamBackend W)) (input : Input)
      (w : W)
      → (is_null lower ≡ false) × (is_null backend ≡ false)
      → Transfers (write_through lower backend input w)
  write_through-Transfers none backend input w c = absurd (ground (arith, c.0))
  write_through-Transfers (some lower) none input w c = absurd (ground (arith, c.1))
  write_through-Transfers (some lower) (some backend) input w c = tt

  module _ (lower : Option (ByteStream W)) (backend : Option (TlsStreamBackend W)) where
    transfer-Sound :
        {A : Type 0} (t : TlsStreamTransport W) (r : Option (A × W))
        → Sound lower backend t
        → Transfers r
        → SoundPoint lower backend (after_transfer t r)
    transfer-Sound t none s x = x
    transfer-Sound t (some r) s x = s

    read_some-Transfers :
        (t : TlsStreamTransport W) (output : Output) (w : W)
        → Sound lower backend t
        → Transfers (read_some t output w)
    unfolding read_some
    read_some-Transfers t output w s =
        if_cases Transfers (not t.is_open) (λ e. tt)
          λ e.
            if_cases Transfers (bad_output output) (λ f. tt)
              (λ f.
                read_through-Transfers t.lower t.backend output w
                  ((Sound-self lower backend t s).complete (ground arith)))

    write_all-Transfers :
        (t : TlsStreamTransport W) (input : Input) (w : W)
        → Sound lower backend t
        → Transfers (write_all t input w)
    unfolding write_all
    write_all-Transfers t input w s =
        if_cases Transfers (not t.is_open) (λ e. tt)
          λ e.
            if_cases Transfers (bad_input input) (λ f. tt)
              (λ f.
                write_through-Transfers t.lower t.backend input w
                  ((Sound-self lower backend t s).complete (ground arith)))

    step-Sound :
        (c : Call) (t : TlsStreamTransport W) (w : W)
        → Sound lower backend t
        → SoundPoint lower backend (step c t w)
    unfolding step
    step-Sound opens t w s = open_stream-Sound lower backend t w s
    step-Sound closes t w s = close_stream-Sound lower backend t w s
    step-Sound (reads output) t w s = transfer-Sound t _ s (read_some-Transfers t output w s)
    step-Sound (writes input) t w s = transfer-Sound t _ s (write_all-Transfers t input w s)

    pub run-Sound :
        (cs : List Call) (p : Point W)
        → SoundPoint lower backend p
        → SoundPoint lower backend (run cs p)
    unfolding run
    run-Sound cs none s = absurd s
    run-Sound [] (some p) s = s
    run-Sound (c ∷ cs) (some p) s = run-Sound cs (step c p.0 p.1) (step-Sound c p.0 p.1 s)

  close_lower-closed :
      (lower : Option (ByteStream W)) (w : W)
      → Lawful lower
      → is_lower_open lower (close_lower lower w).1 ≡ false
  close_lower-closed none w l = refl
  close_lower-closed (some lower) w l = l.close_closes w

  close_both-closed :
      (lower : Option (ByteStream W)) (backend : Option (TlsStreamBackend W)) (w : W)
      → Lawful lower
      → is_lower_open lower (close_both lower backend w).1 ≡ false
  close_both-closed none none w l = refl
  close_both-closed none (some backend) w l = refl
  close_both-closed (some lower) none w l = l.close_closes w
  close_both-closed (some lower) (some backend) w l =
      l.close_closes (backend.close_backend lower w).1

  close_stream-closed :
      (t : TlsStreamTransport W) (w : W)
      → Lawful t.lower
      → ((close_stream t w).1.is_open ≡ false)
        × (is_lower_open t.lower (close_stream t w).2 ≡ false)
  unfolding close_stream
  close_stream-closed t w l =
      if_cases {A = Status × TlsStreamTransport W × W}
        (λ r. (r.1.is_open ≡ false) × (is_lower_open t.lower r.2 ≡ false)) (not t.is_open)
        {x = (ok, t, (close_lower t.lower w).1)}
        (λ e. (ground arith, close_lower-closed t.lower w l))
        (λ e. (refl, close_both-closed t.lower t.backend w l))

  Closed-subst :
      {l lower : Option (ByteStream W)} (p : Point W) → l ≡ lower → Closed l p → Closed lower p
  Closed-subst p e c = rw (← e) c

  Lawful-subst : {l lower : Option (ByteStream W)} → l ≡ lower → Lawful l → Lawful lower
  Lawful-subst e c = rw (← e) c

  -- Whatever calls are made on a `TlsStreamTransport`, with or without a lower stream and a backend,
  -- and whatever the backend does: no call dereferences a null pointer, and after the destructor the
  -- object and the lower stream are closed, if the lower stream keeps its contract.
  pub tls_lifetime_closes :
      (lower : Option (ByteStream W)) (backend : Option (TlsStreamBackend W))
      (options : TlsStreamTransportOptions) (cs : List Call) (w : W)
      → Lawful lower
      → Closed lower (lifetime lower backend options cs w)
  unfolding lifetime
  tls_lifetime_closes lower backend options cs w l =
      ended (run cs (some (new_stream lower backend options, w))) (
        run-Sound lower backend cs _
          record { same_lower = refl; same_backend = refl; complete = λ e. absurd (ground arith) })
    where
      ended : (p : Point W) → SoundPoint lower backend p → Closed lower (destroy p)
      ended none s = s
      ended (some p) s =
          Closed-subst (destroy (some p)) s.same_lower
            (close_stream-closed p.0 p.1 (Lawful-subst (sym s.same_lower) l))
