-- ===== src/CApi/Conversions.antt =====
-- The numbers of the C interface and the constants of the C++ enumerations are the same.
use dlms_transport.Prelude.{
  ℕ, ◌≡◌, refl, ◌<◌, ◌≤◌, ◌==◌, if◌then◌else◌, if_cases, suc, Option, none, some, arith,
}
use dlms_transport.Status.{
  Status, ok, invalid_argument, not_open, already_open, open_failed, read_failed, write_failed,
  timeout, connection_closed, would_block, output_buffer_too_small, unsupported_feature,
  internal_error, to_string,
}
use dlms_transport.CApi.Codes.{to_c_status, from_c_status, status_to_string}

-- What a status keeps of its number.
abbrev pub IsKept : Status → Type 0
IsKept s =
    (from_c_status (to_c_status s) ≡ some s)
    × (status_to_string (to_c_status s) ≡ to_string s)
    × (to_c_status s < 13)

-- The number of a status, or what is not below 13.
abbrev pub IsNumbered : ℕ → Option Status → Type 0
IsNumbered code none = 13 ≤ code
IsNumbered code (some s) = to_c_status s ≡ code

status-IsKept : (s : Status) → IsKept s
unfolding to_c_status from_c_status status_to_string to_string
status-IsKept ok = (refl, refl, omega arith)
status-IsKept invalid_argument = (refl, refl, omega arith)
status-IsKept not_open = (refl, refl, omega arith)
status-IsKept already_open = (refl, refl, omega arith)
status-IsKept open_failed = (refl, refl, omega arith)
status-IsKept read_failed = (refl, refl, omega arith)
status-IsKept write_failed = (refl, refl, omega arith)
status-IsKept timeout = (refl, refl, omega arith)
status-IsKept connection_closed = (refl, refl, omega arith)
status-IsKept would_block = (refl, refl, omega arith)
status-IsKept output_buffer_too_small = (refl, refl, omega arith)
status-IsKept unsupported_feature = (refl, refl, omega arith)
status-IsKept internal_error = (refl, refl, omega arith)

-- One test of the chain, for a number that the tests before have left.
IsNumbered-from :
    (code n : ℕ) (s : Status) (o : Option Status)
    → to_c_status s ≡ n
    → (suc n ≤ code → IsNumbered code o)
    → n ≤ code
    → IsNumbered code (if code == n then some s else o)
IsNumbered-from code n s o e later b =
    if_cases (IsNumbered code) (code == n) (λ same. ground arith) (λ other. later (ground arith))

code-IsNumbered : (code : ℕ) → IsNumbered code (from_c_status code)
unfolding from_c_status to_c_status
code-IsNumbered code =
    IsNumbered-from code 0 ok _ refl
      (IsNumbered-from code 1 invalid_argument _ refl (
        IsNumbered-from code 2 not_open _ refl (
          IsNumbered-from code 3 already_open _ refl (
            IsNumbered-from code 4 open_failed _ refl (
              IsNumbered-from code 5 read_failed _ refl (
                IsNumbered-from code 6 write_failed _ refl (
                  IsNumbered-from code 7 timeout _ refl (
                    IsNumbered-from code 8 connection_closed _ refl (
                      IsNumbered-from code 9 would_block _ refl (
                        IsNumbered-from code 10 output_buffer_too_small _ refl (
                          IsNumbered-from code 11 unsupported_feature _ refl
                            (IsNumbered-from code 12 internal_error _ refl (λ b. b)))))))))))))
      (omega arith)

-- Every status survives the conversion to its number and back, `dlms_transport_status_to_string`
-- of its number is its name, and the numbers are below 13. Conversely, a number is converted to the
-- status that has it, if it is below 13, and to no constant, if it is not.
pub status_codes_roundtrip :
    ((s : Status) → IsKept s) × ((code : ℕ) → IsNumbered code (from_c_status code))
status_codes_roundtrip = (status-IsKept, code-IsNumbered)
