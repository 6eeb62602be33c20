-- ===== src/ModeE/Grammar.antt =====
-- What `ParseIdentification` accepts, against a description of the messages by their form.
use dlms_transport.Prelude.{
  ℕ, zero, suc, ◌-◌, ◌≡◌, refl, sym, ap, ◌∙◌, ◌≢◌, ◌↔◌, true, ◌&&◌, [], ◌∷◌, ◌++◌, length, take,
  some, ◌==◌, Bool-cases, inl, inr, arith,
}
use dlms_transport.Status.{ok}
use dlms_transport.Buffer.{Bytes}
use dlms_transport.ModeE.Protocol.{
  BaudRate, is_known_baud_rate, baud_rate_from_code, baud_rate_code, cr, lf, at, find_mode_marker,
  marks_mode_e, parse_identification,
}
use dlms_transport.ModeE.Handshake.{
  IsIdentification, parse_identification_accepts, message, message-IsIdentification,
}

-- Digits only are codes.
code_lem :
    (code : ℕ) (rate : BaudRate)
    → baud_rate_from_code code ≡ some rate
    → (is_known_baud_rate rate ≡ true) × (code ≡ baud_rate_code rate) × (code ≢ cr) × (code ≢ lf)
unfolding baud_rate_from_code is_known_baud_rate baud_rate_code
code_lem code rate e = ground (arith, e)

ends :
    (i : ℕ) (xs : Bytes)
    → length xs ≡ suc (suc i)
    → at xs i ≡ cr
    → at xs (suc i) ≡ lf
    → xs ≡ take i xs ++ cr ∷ lf ∷ []
ends zero (x ∷ y ∷ []) e f g = ap (λ z. z ∷ y ∷ []) f ∙ ap (λ z. cr ∷ z ∷ []) g
ends (suc i) (x ∷ xs) e f g = ap (λ l. x ∷ l) (ends i xs (omega (arith, e)) f g)
ends _ _ e f g = absurd (ground (arith, e))

-- A backslash, a W and a 2 stand somewhere, with no backslash and W before them.
pub data Marked : Bytes → Type 0 where
  here : (rest : Bytes) → Marked (b'\\' ∷ b'W' ∷ b'2' ∷ rest)
  later :
      (x : ℕ) (xs : Bytes)
      → ((rest : Bytes) → x ∷ xs ≢ b'\\' ∷ b'W' ∷ rest)
      → Marked xs
      → Marked (x ∷ xs)

Marked-find_mode_marker : (xs : Bytes) → Marked xs → marks_mode_e (find_mode_marker xs) ≡ true
unfolding find_mode_marker
Marked-find_mode_marker _ (here rest) = refl
Marked-find_mode_marker _ (later x [] other m) =
    absurd (let e = Marked-find_mode_marker [] m in ground (arith, e))
Marked-find_mode_marker _ (later x (y ∷ xs) other m) = elim (Bool-cases (x == b'\\' && y == b'W')) [
  | inl e ↦ absurd (other xs (ground (arith, e)))
  | inr e ↦ rw e (Marked-find_mode_marker (y ∷ xs) m)
]

found-Marked :
    (x y : ℕ) (rest : Bytes)
    → (x == b'\\' && y == b'W') ≡ true
    → marks_mode_e (some rest) ≡ true
    → Marked (x ∷ y ∷ rest)
found-Marked x y [] e f = absurd (ground (arith, f))
found-Marked x y (z ∷ rest) e f =
    let same : x ∷ y ∷ z ∷ rest ≡ b'\\' ∷ b'W' ∷ b'2' ∷ rest = ground (arith, e, f) in
    rw same (here rest)

find_mode_marker-Marked : (xs : Bytes) → marks_mode_e (find_mode_marker xs) ≡ true → Marked xs
unfolding find_mode_marker
find_mode_marker-Marked [] e = absurd (ground (arith, e))
find_mode_marker-Marked (x ∷ []) e = absurd (ground (arith, e))
find_mode_marker-Marked (x ∷ y ∷ rest) e = elim (Bool-cases (x == b'\\' && y == b'W')) [
  | inl f ↦ found-Marked x y rest f (ground (arith, e, f))
  | inr f ↦
      later x (y ∷ rest) (λ r g. ground (arith, f, g))
        (find_mode_marker-Marked (y ∷ rest) (ground (arith, e, f)))
]

identified :
    (input : Bytes) (rate : BaudRate)
    → (parse_identification input).0 ≡ ok
    → (parse_identification input).1.max_baud_rate ≡ rate
    → IsIdentification input rate
unfolding parse_identification
identified input rate e f = ground (arith, e, f)

IsIdentification-message :
    (input : Bytes) (rate : BaudRate)
    → IsIdentification input rate
    → (is_known_baud_rate rate ≡ true)
      × (a : ℕ) × (b : ℕ) × (c : ℕ) × (text : Bytes) × (input ≡ message a b c rate text)
IsIdentification-message [] rate p = absurd (omega (arith, p.long))
IsIdentification-message (_ ∷ []) rate p = absurd (omega (arith, p.long))
IsIdentification-message (_ ∷ _ ∷ []) rate p = absurd (omega (arith, p.long))
IsIdentification-message (_ ∷ _ ∷ _ ∷ []) rate p = absurd (omega (arith, p.long))
IsIdentification-message (_ ∷ _ ∷ _ ∷ _ ∷ []) rate p = absurd (omega (arith, p.long))
IsIdentification-message (s ∷ a ∷ b ∷ c ∷ z ∷ []) rate p =
    absurd ((code_lem z rate p.code).3 p.line_feed)
IsIdentification-message (s ∷ a ∷ b ∷ c ∷ z ∷ t ∷ []) rate p =
    absurd ((code_lem z rate p.code).2 p.carriage_return)
IsIdentification-message (s ∷ a ∷ b ∷ c ∷ z ∷ t ∷ u ∷ rest) rate p =
    let q = code_lem z rate p.code in
    let input = s ∷ a ∷ b ∷ c ∷ z ∷ t ∷ u ∷ rest in
    let i = suc (suc (suc (suc (suc (length rest))))) in
    let last_but_one : length input - 2 ≡ i = omega arith in
    let last : length input - 1 ≡ suc i = omega arith in
    let closing =
      ends (length rest) (t ∷ u ∷ rest) refl (sym (ap (at input) last_but_one) ∙ p.carriage_return)
        (sym (ap (at input) last) ∙ p.line_feed) in
    (
      q.0,
      a,
      b,
      c,
      take (length rest) (t ∷ u ∷ rest),
      ap (λ x. x ∷ a ∷ b ∷ c ∷ z ∷ t ∷ u ∷ rest) p.slash
          ∙ ap (λ x. b'/' ∷ a ∷ b ∷ c ∷ x ∷ t ∷ u ∷ rest) q.1
          ∙ ap (λ l. b'/' ∷ a ∷ b ∷ c ∷ baud_rate_code rate ∷ l) closing,
    )

message-parse_identification :
    (input : Bytes) (rate : BaudRate)
    → IsIdentification input rate
    → let r = parse_identification input in (r.0 ≡ ok) × (r.1.max_baud_rate ≡ rate)
message-parse_identification input rate p =
    let e = (parse_identification_accepts input rate).0 p in
    (ap (λ r. r.0) e, ap (λ r. r.1.max_baud_rate) e)

accepted_marks :
    (input : Bytes)
    → (parse_identification input).0 ≡ ok
    → (parse_identification input).1.supports_mode_e ≡ marks_mode_e (find_mode_marker input)
accepted_marks input e =
    let p = identified input _ e refl in
    ap (λ r. r.1.supports_mode_e) ((parse_identification_accepts input _).0 p)

-- An input is accepted with a rate exactly when it is a message with that rate: a slash, three
-- characters, the code of a rate of the enumeration, any text, and CR LF. And of an accepted input,
-- mode E is supported exactly when a backslash, a W and a 2 stand in it with no backslash and W before
-- them.
pub parse_identification-Marked :
    (input : Bytes) (rate : BaudRate)
    → let r = parse_identification input in
      ((r.0 ≡ ok) × (r.1.max_baud_rate ≡ rate) ↔ (
        (is_known_baud_rate rate ≡ true)
        × (a : ℕ) × (b : ℕ) × (c : ℕ) × (text : Bytes) × (input ≡ message a b c rate text)))
      × (r.0 ≡ ok → (r.1.supports_mode_e ≡ true) ↔ Marked input)
parse_identification-Marked input rate = (
  (
    (λ p. IsIdentification-message input rate (identified input rate p.0 p.1)),
    λ p.
        let m = message-IsIdentification p.1 p.2 p.3 rate p.4 p.0 in
        rw p.5 (message-parse_identification _ rate m),
  ),
  λ e.
      let marks = accepted_marks input e in
      (
        (λ f. find_mode_marker-Marked input (sym marks ∙ f)),
        λ m. marks ∙ Marked-find_mode_marker input m,
      ),
)
