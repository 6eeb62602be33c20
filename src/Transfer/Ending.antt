-- ===== src/Transfer/Ending.antt =====
-- A write loop with enough fuel, as an operation that ends.
use dlms_transport.Prelude.{
  ℕ, suc, ◌+◌, ◌≡◌, true, length, take, take_all, Option, none, some, arith,
}
use dlms_transport.Status.{Status, ok, internal_error, is_ok}
use dlms_transport.Buffer.{Bytes, Input, contents}
use dlms_transport.Os.{History}
use dlms_transport.Transfer.Delivery.{Verdict}

-- The status at the end of a loop on fuel. Enough fuel never leaves `none`.
abbrev pub ended_status : Option Status → Status
ended_status none = internal_error
ended_status (some s) = s

-- Enough for the input and the patience of the system.
abbrev pub write_fuel : (History → ℕ) → Input → History → ℕ
write_fuel patience input h = suc (length (contents input) + patience h)

-- What `Ok` says of the bytes that were taken over.
pub delivered_whole :
    (r : Option Status) (n : ℕ) (xs : Bytes)
    → Verdict r n (length xs)
    → is_ok (ended_status r) ≡ true
    → take n xs ≡ xs
delivered_whole none n xs v e = absurd v
delivered_whole (some ok) n xs v e = take_all n xs (omega arith)
delivered_whole (some _) n xs v e = absurd (ground arith)
