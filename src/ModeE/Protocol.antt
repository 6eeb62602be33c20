-- ===== src/ModeE/Protocol.antt =====
-- The sign-on helpers of IEC 62056-21 protocol mode E. A `std::string` is its list of bytes.
use dlms_transport.Prelude.{
  ℕ, zero, suc, ℤ, pos, negsuc, ◌-◌, Bool, true, false, not, ◌&&◌, ◌||◌, [], ◌∷◌, length, Option,
  none, some, ltb, ◌==◌, if◌then◌else◌,
}
use dlms_transport.Status.{Status, ok, invalid_argument, unsupported_feature}
use dlms_transport.Buffer.{Bytes}

-- The enumerators, and any other `int` that a cast may have put there.
pub data BaudRate : Type 0 where
  baud300 baud600 baud1200 baud2400 baud4800 baud9600 baud19200 : BaudRate
  unlisted : ℤ → BaudRate

pub record Identification : Type 0 where
  pub raw : Bytes
  pub supports_mode_e : Bool
  pub max_baud_rate : BaudRate

-- The default constructor.
abbrev pub new_identification : Identification
new_identification = record { raw = []; supports_mode_e = false; max_baud_rate = baud300 }

unfoldable pub is_known_baud_rate : BaudRate → Bool
is_known_baud_rate (unlisted n) = false
is_known_baud_rate _ = true

-- The baud rate of a code; no entry is `InvalidArgument`.
unfoldable pub baud_rate_from_code : ℕ → Option BaudRate
baud_rate_from_code code =
    if code == b'0'
    then some baud300
    else if code == b'1'
    then some baud600
    else if code == b'2'
    then some baud1200
    else if code == b'3'
    then some baud2400
    else if code == b'4'
    then some baud4800
    else if code == b'5'
    then some baud9600
    else if code == b'6'
    then some baud19200
    else none

-- The numbers of the enumerators.
unfoldable pub baud_rank : BaudRate → ℤ
baud_rank baud300 = pos 0
baud_rank baud600 = pos 1
baud_rank baud1200 = pos 2
baud_rank baud2400 = pos 3
baud_rank baud4800 = pos 4
baud_rank baud9600 = pos 5
baud_rank baud19200 = pos 6
baud_rank (unlisted n) = n

unfoldable pub baud_rate_code : BaudRate → ℕ
baud_rate_code baud300 = b'0'
baud_rate_code baud600 = b'1'
baud_rate_code baud1200 = b'2'
baud_rate_code baud2400 = b'3'
baud_rate_code baud4800 = b'4'
baud_rate_code baud9600 = b'5'
baud_rate_code baud19200 = b'6'
baud_rate_code (unlisted n) = b'?'

unfoldable pub baud_rate_value : BaudRate → ℕ
baud_rate_value baud300 = 300
baud_rate_value baud600 = 600
baud_rate_value baud1200 = 1200
baud_rate_value baud2400 = 2400
baud_rate_value baud4800 = 4800
baud_rate_value baud9600 = 9600
baud_rate_value baud19200 = 19200
baud_rate_value (unlisted n) = 0

-- CR and LF
abbrev pub cr : ℕ
cr = 13

abbrev pub lf : ℕ
lf = 10

unfoldable pub build_sign_on_request : Status × Bytes
build_sign_on_request = (ok, b'/' ∷ b'?' ∷ b'!' ∷ cr ∷ lf ∷ [])

-- `input[i]`, within the string.
abbrev pub at : Bytes → ℕ → ℕ
at [] i = 0
at (x ∷ xs) zero = x
at (x ∷ xs) (suc i) = at xs i

-- `input.find("\\W")`: what follows the first backslash and W, or nothing.
unfoldable pub find_mode_marker : Bytes → Option Bytes
find_mode_marker [] = none
find_mode_marker (x ∷ []) = none
find_mode_marker (x ∷ y ∷ rest) =
    if x == b'\\' && y == b'W' then some rest else find_mode_marker (y ∷ rest)

-- The character after the marker, if there is one, is a `2`.
abbrev pub marks_mode_e : Option Bytes → Bool
marks_mode_e none = false
marks_mode_e (some []) = false
marks_mode_e (some (x ∷ rest)) = x == b'2'

-- The second guard's own length test repeats what the first one has made sure of.
unfoldable pub parse_identification : Bytes → Status × Identification
parse_identification input =
    if ltb (length input) 5 || not (at input 0 == b'/')
    then (invalid_argument, new_identification)
    else if ltb (length input) 2
        || (not (at input (length input - 2) == cr) || not (at input (length input - 1) == lf))
    then (invalid_argument, new_identification)
    else elim (baud_rate_from_code (at input 4)) [
      | none ↦ (invalid_argument, record new_identification { raw = input })
      | some rate ↦ (
        ok,
        record {
          raw = input;
          supports_mode_e = marks_mode_e (find_mode_marker input);
          max_baud_rate = rate;
        },
      )
    ]

-- `a < b` on `int`
abbrev pub ltℤ : ℤ → ℤ → Bool
ltℤ (pos a) (pos b) = ltb a b
ltℤ (pos a) (negsuc b) = false
ltℤ (negsuc a) (pos b) = true
ltℤ (negsuc a) (negsuc b) = ltb b a

unfoldable pub select_baud_rate : Identification → BaudRate → Status × BaudRate
select_baud_rate identification requested_max =
    if not identification.supports_mode_e || not (is_known_baud_rate requested_max)
    then (unsupported_feature, baud300)
    else (
      ok,
      if ltℤ (baud_rank identification.max_baud_rate) (baud_rank requested_max)
          then identification.max_baud_rate
          else requested_max,
    )

unfoldable pub build_ack : BaudRate → Status × Bytes
build_ack rate =
    if not (is_known_baud_rate rate)
    then (invalid_argument, [])
    else (ok, 6 ∷ b'2' ∷ baud_rate_code rate ∷ b'2' ∷ cr ∷ lf ∷ [])
