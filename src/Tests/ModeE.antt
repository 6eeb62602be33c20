-- ===== src/Tests/ModeE.antt =====
-- Runs of the mode E helpers.
use dlms_transport.Prelude.{ℕ, ◌≡◌, refl, ◌↔◌, ◌⊎◌, ◌≤◌, true, false, ◌&&◌, [], ◌∷◌, some, arith}
use dlms_transport.Status.{ok, unsupported_feature}
use dlms_transport.Buffer.{Bytes}
use dlms_transport.ModeE.Protocol.{
  baud300, baud2400, baud9600, baud19200, Identification, is_known_baud_rate, baud_rate_from_code,
  baud_rate_code, baud_rank, baud_rate_value, cr, lf, parse_identification, select_baud_rate,
  build_ack,
}
use dlms_transport.ModeE.Grammar.{Marked, parse_identification-Marked}
use dlms_transport.ModeE.Handshake.{
  baud_rate_from_code-code, select_baud_rate_min, message, handshake,
}

abbrev sample : Bytes
sample = message b'A' b'B' b'C' baud9600 (b'\\' ∷ b'W' ∷ b'2' ∷ b'x' ∷ [])

parse_identification-Marked_example :
    let r = parse_identification sample in
    ((r.0 ≡ ok) × (r.1.max_baud_rate ≡ baud9600) ↔ (
      (is_known_baud_rate baud9600 ≡ true)
      × (a : ℕ) × (b : ℕ) × (c : ℕ) × (text : Bytes) × (sample ≡ message a b c baud9600 text)))
    × (r.0 ≡ ok → (r.1.supports_mode_e ≡ true) ↔ Marked sample)
parse_identification-Marked_example = parse_identification-Marked sample baud9600

baud_rate_from_code-code_example : baud_rate_from_code (baud_rate_code baud2400) ≡ some baud2400
unfolding is_known_baud_rate
baud_rate_from_code-code_example = baud_rate_from_code-code baud2400 refl

abbrev meter : Identification
meter = record { raw = sample; supports_mode_e = true; max_baud_rate = baud9600 }

select_baud_rate_min_example :
    let r = select_baud_rate meter baud19200 in
    ((true && is_known_baud_rate baud19200 ≡ true)
      × (r.0 ≡ ok)
      × ((r.1 ≡ baud9600) ⊎ (r.1 ≡ baud19200))
      × (baud_rate_value r.1 ≤ baud_rate_value baud9600)
      × (baud_rate_value r.1 ≤ baud_rate_value baud19200))
    ⊎ ((true && is_known_baud_rate baud19200 ≡ false) × (r ≡ (unsupported_feature, baud300)))
unfolding is_known_baud_rate
select_baud_rate_min_example = select_baud_rate_min meter baud19200 refl

handshake_example :
    let parsed = parse_identification sample in
    let selected = select_baud_rate parsed.1 baud2400 in
    (parsed.0 ≡ ok)
    × (selected ≡ (ok, baud2400))
    × (build_ack selected.1 ≡ (ok, 6 ∷ b'2' ∷ b'3' ∷ b'2' ∷ cr ∷ lf ∷ []))
unfolding is_known_baud_rate baud_rank baud_rate_code
handshake_example =
    handshake b'A' b'B' b'C' baud9600 baud2400 (b'x' ∷ []) refl refl (omega arith) (omega arith)
      (omega arith)
