-- ===== src/ModeE/Handshake.antt =====
-- Laws of the mode E helpers, one by one and chained as a handshake.
use dlms_transport.Prelude.{
  ℕ, suc, ◌+◌, ◌-◌, ◌≤◌, ◌≡◌, refl, ap, ◌∙◌, ◌≢◌, ◌⊎◌, ◌↔◌, inl, inr, true, false, ◌&&◌, [], ◌∷◌,
  ◌++◌, length, length-append, some, ◌==◌, if◌then◌else◌, Bool-cases, arith,
}
use dlms_transport.Status.{ok, unsupported_feature}
use dlms_transport.Buffer.{Bytes}
use dlms_transport.ModeE.Protocol.{
  BaudRate, baud300, unlisted, Identification, is_known_baud_rate, baud_rate_from_code, baud_rank,
  baud_rate_code, baud_rate_value, cr, lf, at, find_mode_marker, marks_mode_e, parse_identification,
  select_baud_rate, build_ack, ltℤ,
}

-- The code of a rate of the enumeration is read back as that rate.
pub baud_rate_from_code-code :
    (rate : BaudRate)
    → is_known_baud_rate rate ≡ true
    → (baud_rate_from_code (baud_rate_code rate) ≡ some rate)
unfolding is_known_baud_rate baud_rate_from_code baud_rate_code
baud_rate_from_code-code baud300 k = refl
baud_rate_from_code-code (unlisted n) k = cc
baud_rate_from_code-code _ k = refl

-- What a meter sends: a slash, three letters, the code of its highest rate, an identification and
-- CR LF.
abbrev pub message : ℕ → ℕ → ℕ → BaudRate → Bytes → Bytes
message a b c rate text = b'/' ∷ a ∷ b ∷ c ∷ baud_rate_code rate ∷ text ++ cr ∷ lf ∷ []

at-append : (xs ys : Bytes) (i : ℕ) → at (xs ++ ys) (length xs + i) ≡ at ys i
at-append [] ys i = let e : 0 + i ≡ i = omega arith in rw e
at-append (x ∷ xs) ys i =
    let e : suc (length xs) + i ≡ suc (length xs + i) = omega arith in rw e (at-append xs ys i)

-- The form that the parser asks for: at least five characters, a slash first, the code of a rate
-- fifth, and CR LF last.
pub record IsIdentification (input : Bytes) (rate : BaudRate) : Type 0 where
  pub long : 5 ≤ length input
  pub slash : at input 0 ≡ b'/'
  pub code : baud_rate_from_code (at input 4) ≡ some rate
  pub carriage_return : at input (length input - 2) ≡ cr
  pub line_feed : at input (length input - 1) ≡ lf

-- Exactly such an input is accepted, with its rate; all of it is kept as `raw`, and mode E is
-- supported if a `2` follows the first backslash and W.
pub parse_identification_accepts :
    (input : Bytes) (rate : BaudRate)
    → IsIdentification input rate ↔ (
        parse_identification input ≡ (
          ok,
          record {
            raw = input;
            supports_mode_e = marks_mode_e (find_mode_marker input);
            max_baud_rate = rate;
          },
        ))
unfolding parse_identification
parse_identification_accepts input rate = (accepted, rejected)
  where
    accepted :
        IsIdentification input rate
        → parse_identification input ≡ (
          ok,
          record {
            raw = input;
            supports_mode_e = marks_mode_e (find_mode_marker input);
            max_baud_rate = rate;
          },
        )
    accepted f = ground arith

    rejected :
        parse_identification input ≡ (
          ok,
          record {
            raw = input;
            supports_mode_e = marks_mode_e (find_mode_marker input);
            max_baud_rate = rate;
          },
        )
        → IsIdentification input rate
    rejected e = ground arith

length-message :
    (a b c : ℕ) (rate : BaudRate) (text : Bytes)
    → length (message a b c rate text) ≡ length text + 7
length-message a b c rate text = omega (arith, length-append text (cr ∷ lf ∷ []))

at-message :
    (a b c : ℕ) (rate : BaudRate) (text : Bytes) (i : ℕ)
    → at (message a b c rate text) (length text + 5 + i) ≡ at (cr ∷ lf ∷ []) i
at-message a b c rate text i =
    let e : length text + 5 + i ≡ suc (suc (suc (suc (suc (length text + i))))) = omega arith in
    rw e (at-append text (cr ∷ lf ∷ []) i)

pub message-IsIdentification :
    (a b c : ℕ) (rate : BaudRate) (text : Bytes)
    → is_known_baud_rate rate ≡ true
    → IsIdentification (message a b c rate text) rate
message-IsIdentification a b c rate text known = record {
  long = omega (arith, length-message a b c rate text);
  slash = refl;
  code = baud_rate_from_code-code rate known;
  carriage_return =
      let e : length (message a b c rate text) - 2 ≡ length text + 5 + 0 =
        omega (arith, length-message a b c rate text) in
      ap (at (message a b c rate text)) e ∙ at-message a b c rate text 0;
  line_feed =
      let e : length (message a b c rate text) - 1 ≡ length text + 5 + 1 =
        omega (arith, length-message a b c rate text) in
      ap (at (message a b c rate text)) e ∙ at-message a b c rate text 1;
}

-- The slower of two rates.
abbrev pub slower : BaudRate → BaudRate → BaudRate
slower a b = if ltℤ (baud_rank a) (baud_rank b) then a else b

slower_value :
    (a b : BaudRate)
    → is_known_baud_rate a ≡ true
    → is_known_baud_rate b ≡ true
    → (baud_rate_value (slower a b) ≤ baud_rate_value a)
      × (baud_rate_value (slower a b) ≤ baud_rate_value b)
unfolding is_known_baud_rate baud_rank baud_rate_value
slower_value (unlisted n) b k l = absurd (cc)
slower_value baud300 (unlisted n) k l = absurd (cc)
slower_value baud300 baud300 k l = omega arith
slower_value a (unlisted n) k l = absurd (cc)
slower_value a b k l = omega arith

-- The rate selected between two rates of the enumeration is one of the two, and in bauds it is at
-- most either; without mode E, or on a request that is no rate, nothing is selected and the output
-- is set to 300 bauds.
pub select_baud_rate_min :
    (identification : Identification) (requested : BaudRate)
    → is_known_baud_rate identification.max_baud_rate ≡ true
    → let r = select_baud_rate identification requested in
      ((identification.supports_mode_e && is_known_baud_rate requested ≡ true)
        × (r.0 ≡ ok)
        × ((r.1 ≡ identification.max_baud_rate) ⊎ (r.1 ≡ requested))
        × (baud_rate_value r.1 ≤ baud_rate_value identification.max_baud_rate)
        × (baud_rate_value r.1 ≤ baud_rate_value requested))
      ⊎ ((identification.supports_mode_e && is_known_baud_rate requested ≡ false)
          × (r ≡ (unsupported_feature, baud300)))
unfolding select_baud_rate
select_baud_rate_min identification requested known =
    elim (Bool-cases (identification.supports_mode_e && is_known_baud_rate requested)) [
      | inl good ↦ inl (ground (arith, slower_value identification.max_baud_rate requested known))
      | inr bad ↦ inr (ground arith)
    ]

baud_rate_code-ne : (rate : BaudRate) → (baud_rate_code rate == b'\\') ≡ false
unfolding baud_rate_code
baud_rate_code-ne baud300 = refl
baud_rate_code-ne _ = refl

find_mode_marker-message :
    (a b c : ℕ) (rate : BaudRate) (text : Bytes)
    → a ≢ b'\\'
    → b ≢ b'\\'
    → c ≢ b'\\'
    → marks_mode_e (find_mode_marker (message a b c rate (b'\\' ∷ b'W' ∷ b'2' ∷ text))) ≡ true
unfolding find_mode_marker
find_mode_marker-message a b c rate text na nb nc = ground (arith, baud_rate_code-ne rate)

slower-known :
    (a b : BaudRate)
    → is_known_baud_rate a ≡ true
    → is_known_baud_rate b ≡ true
    → is_known_baud_rate (slower a b) ≡ true
slower-known a b k l = ground arith

-- The three steps of the handshake over what a meter sends: a message whose text begins with the
-- marker and a 2, and whose letters are no backslashes, is accepted with mode E; the rate selected
-- is the slower of the meter's and the requested one; and the acknowledgement is ACK 2 Z 2 CR LF
-- with the code Z of that rate.
pub handshake :
    (a b c : ℕ) (rate requested : BaudRate) (text : Bytes)
    → is_known_baud_rate rate ≡ true
    → is_known_baud_rate requested ≡ true
    → a ≢ b'\\'
    → b ≢ b'\\'
    → c ≢ b'\\'
    → let parsed = parse_identification (message a b c rate (b'\\' ∷ b'W' ∷ b'2' ∷ text)) in
      let selected = select_baud_rate parsed.1 requested in
      (parsed.0 ≡ ok)
      × (selected ≡ (ok, slower rate requested))
      × (build_ack selected.1
          ≡ (ok, 6 ∷ b'2' ∷ baud_rate_code (slower rate requested) ∷ b'2' ∷ cr ∷ lf ∷ []))
handshake a b c rate requested text known known' na nb nc =
    rw
      (
        (parse_identification_accepts _ rate).0
            (message-IsIdentification a b c rate (b'\\' ∷ b'W' ∷ b'2' ∷ text) known),
        find_mode_marker-message a b c rate text na nb nc,
      )
      (refl, chosen, ap (λ r. build_ack r.1) chosen ∙ acknowledged)
  where
    parsed : Identification
    parsed = record {
      raw = message a b c rate (b'\\' ∷ b'W' ∷ b'2' ∷ text);
      supports_mode_e = true;
      max_baud_rate = rate;
    }

    chosen : select_baud_rate parsed requested ≡ (ok, slower rate requested)
    chosen = unfold select_baud_rate in ground arith

    acknowledged :
        build_ack (slower rate requested)
        ≡ (ok, 6 ∷ b'2' ∷ baud_rate_code (slower rate requested) ∷ b'2' ∷ cr ∷ lf ∷ [])
    acknowledged = unfold build_ack in ground (arith, slower-known rate requested)
