-- ===== src/Serial/Order.antt =====
-- The order of the devices of serial_port_discovery.cpp, and the prefixes.
use dlms_transport.Prelude.{◌≡◌, refl, ap₂, true, false, [], ◌∷◌, ◌++◌, arith}
use dlms_transport.Buffer.{Bytes}
use dlms_transport.Serial.Discovery.{bytes_equal, bytes_less, has_prefix}

pub bytes_less_refl : (xs : Bytes) → bytes_less xs xs ≡ false
unfolding bytes_less
bytes_less_refl [] = refl
bytes_less_refl (x ∷ xs) = ground (arith, bytes_less_refl xs)

pub bytes_less_asym : (xs ys : Bytes) → bytes_less xs ys ≡ true → bytes_less ys xs ≡ false
unfolding bytes_less
bytes_less_asym [] [] e = refl
bytes_less_asym [] (y ∷ ys) e = refl
bytes_less_asym (x ∷ xs) [] e = absurd (ground arith)
bytes_less_asym (x ∷ xs) (y ∷ ys) e = ground (arith, bytes_less_asym xs ys)

pub bytes_less_trans :
    (xs ys zs : Bytes)
    → bytes_less ys xs ≡ false
    → bytes_less zs ys ≡ false
    → bytes_less zs xs ≡ false
unfolding bytes_less
bytes_less_trans [] ys [] e f = refl
bytes_less_trans [] [] (z ∷ zs) e f = refl
bytes_less_trans [] (y ∷ ys) (z ∷ zs) e f = refl
bytes_less_trans (x ∷ xs) [] zs e f = absurd (ground arith)
bytes_less_trans (x ∷ xs) (y ∷ ys) [] e f = absurd (ground arith)
bytes_less_trans (x ∷ xs) (y ∷ ys) (z ∷ zs) e f = ground (arith, bytes_less_trans xs ys zs)

pub bytes_less_antisym :
    (xs ys : Bytes) → bytes_less ys xs ≡ false → bytes_less xs ys ≡ false → xs ≡ ys
unfolding bytes_less
bytes_less_antisym [] [] e f = refl
bytes_less_antisym [] (y ∷ ys) e f = absurd (ground arith)
bytes_less_antisym (x ∷ xs) [] e f = absurd (ground arith)
bytes_less_antisym (x ∷ xs) (y ∷ ys) e f =
    let same : x ≡ y = ground arith in
    ap₂ ◌∷◌ same (bytes_less_antisym xs ys (ground arith) (ground arith))

-- The test of a prefix.
pub has_prefix-append :
    (value prefix : Bytes)
    → has_prefix value prefix ≡ true
    → (rest : Bytes) × (value ≡ prefix ++ rest)
unfolding has_prefix bytes_equal
has_prefix-append value [] e = (value, refl)
has_prefix-append [] (p ∷ ps) e = absurd (ground arith)
has_prefix-append (x ∷ xs) (p ∷ ps) e =
    let r = has_prefix-append xs ps (ground arith) in
    let same : x ≡ p = ground arith in (r.0, ap₂ ◌∷◌ same r.1)

pub append-has_prefix : (prefix rest : Bytes) → has_prefix (prefix ++ rest) prefix ≡ true
unfolding has_prefix bytes_equal
append-has_prefix [] rest = refl
append-has_prefix (p ∷ ps) rest = ground (arith, append-has_prefix ps rest)
