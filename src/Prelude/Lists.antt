-- ===== src/Prelude/Lists.antt =====
-- Lists measured by native numbers, under the library's names.
use Prim.Native.Nat.{ℕ, zero, suc, ◌+◌, ◌-◌, ◌≤◌, min}
use mathlib.Core.Path.{◌≡◌, refl, ap}
use mathlib.Core.List.{List, [], ◌∷◌, ◌++◌}
use mathlib.Core.Bool.{Bool, true, false}
use native.Mathlib.Omega.{arith}

module _ {ℓ} {A : Type ℓ} where
  abbrev pub length : List A → ℕ
  length [] = 0
  length (x ∷ xs) = suc (length xs)

  abbrev pub is_empty : List A → Bool
  is_empty [] = true
  is_empty (x ∷ xs) = false

  abbrev pub take : ℕ → List A → List A
  take zero xs = []
  take (suc n) [] = []
  take (suc n) (x ∷ xs) = x ∷ take n xs

  abbrev pub drop : ℕ → List A → List A
  drop zero xs = xs
  drop (suc n) [] = []
  drop (suc n) (x ∷ xs) = drop n xs

  pub length_zero : (xs : List A) → length xs ≡ 0 → xs ≡ []
  length_zero [] e = refl
  length_zero (x ∷ xs) e = absurd (omega arith)

  pub length-append : (xs ys : List A) → length (xs ++ ys) ≡ length xs + length ys
  length-append [] ys = omega arith
  length-append (x ∷ xs) ys = omega (arith, length-append xs ys)

module _ {ℓ} {A : Type ℓ} where
  pub take-append-drop : (n : ℕ) (xs : List A) → take n xs ++ drop n xs ≡ xs
  take-append-drop zero xs = refl
  take-append-drop (suc n) [] = refl
  take-append-drop (suc n) (x ∷ xs) = rw (take-append-drop n xs)

  pub length-take : (n : ℕ) (xs : List A) → length (take n xs) ≡ min n (length xs)
  length-take zero xs = omega arith
  length-take (suc n) [] = omega arith
  length-take (suc n) (x ∷ xs) = omega (arith, length-take n xs)

  pub length-drop : (n : ℕ) (xs : List A) → length (drop n xs) ≡ length xs - n
  length-drop zero xs = omega arith
  length-drop (suc n) [] = omega arith
  length-drop (suc n) (x ∷ xs) = omega (arith, length-drop n xs)

  pub take_all : (n : ℕ) (xs : List A) → length xs ≤ n → take n xs ≡ xs
  take_all zero [] h = refl
  take_all zero (x ∷ xs) h = absurd (omega arith)
  take_all (suc n) [] h = refl
  take_all (suc n) (x ∷ xs) h = ap (◌∷◌ x) (take_all n xs (omega arith))

  pub drop_all : (n : ℕ) (xs : List A) → length xs ≤ n → drop n xs ≡ []
  drop_all zero [] h = refl
  drop_all zero (x ∷ xs) h = absurd (omega arith)
  drop_all (suc n) [] h = refl
  drop_all (suc n) (x ∷ xs) h = drop_all n xs (omega arith)

  -- What is taken in two goes is what is taken at once.
  pub take-append-take-drop :
      (m n k : ℕ) (xs : List A) → m + n ≡ k → take m xs ++ take n (drop m xs) ≡ take k xs
  take-append-take-drop zero n zero xs e = let e' : n ≡ 0 = omega arith in rw e'
  take-append-take-drop zero n (suc k) xs e = let e' : n ≡ suc k = omega arith in rw e'
  take-append-take-drop (suc m) n zero xs e = absurd (omega arith)
  take-append-take-drop (suc m) zero (suc k) [] e = refl
  take-append-take-drop (suc m) (suc n) (suc k) [] e = refl
  take-append-take-drop (suc m) n (suc k) (x ∷ xs) e =
      ap (◌∷◌ x) (take-append-take-drop m n k xs (omega arith))

  pub drop-drop : (m n k : ℕ) (xs : List A) → m + n ≡ k → drop n (drop m xs) ≡ drop k xs
  drop-drop zero n zero xs e = let e' : n ≡ 0 = omega arith in rw e'
  drop-drop zero n (suc k) xs e = let e' : n ≡ suc k = omega arith in rw e'
  drop-drop (suc m) n zero xs e = absurd (omega arith)
  drop-drop (suc m) zero (suc k) [] e = refl
  drop-drop (suc m) (suc n) (suc k) [] e = refl
  drop-drop (suc m) n (suc k) (x ∷ xs) e = drop-drop m n k xs (omega arith)
