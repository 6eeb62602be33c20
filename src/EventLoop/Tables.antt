-- ===== src/EventLoop/Tables.antt =====
-- Laws of the table.
use dlms_transport.Prelude.{
  ℕ, suc, ◌≤◌, ◌<◌, ◌≡◌, refl, List, [], ◌∷◌, none, some, ◌==◌, if◌then◌else◌, arith,
}
use dlms_transport.EventLoop.Table.{find, assign, Within}

module _ {ℓ} {V : Type ℓ} where
  pub find-assign :
      (k j : ℕ) (v : V) (low high : ℕ) (m : List (ℕ × V))
      → Within low high m
      → find j (assign k v m) ≡ (if k == j then some v else find j m)
  unfolding find assign
  find-assign k j v low high [] h = refl
  find-assign k j v low high ((i, w) ∷ m) h = ground (arith, find-assign k j v (suc i) high m h.2)

  pub find_above :
      (k low high : ℕ) (m : List (ℕ × V)) → Within low high m → high ≤ k → find k m ≡ none
  unfolding find
  find_above k low high [] h l = refl
  find_above k low high ((i, w) ∷ m) h l = ground (arith, find_above k (suc i) high m h.2)

  pub Within-mono :
      (low low' high high' : ℕ) (m : List (ℕ × V))
      → low' ≤ low
      → high ≤ high'
      → Within low high m
      → Within low' high' m
  Within-mono low low' high high' [] a b h = omega arith
  Within-mono low low' high high' ((i, w) ∷ m) a b h =
      (omega arith, omega arith, Within-mono (suc i) (suc i) high high' m (omega arith) b h.2)

  pub assign-Within :
      (k : ℕ) (v : V) (low high : ℕ) (m : List (ℕ × V))
      → low ≤ k
      → k < high
      → Within low high m
      → Within low high (assign k v m)
  unfolding assign
  assign-Within k v low high [] a b h = (a, b, b)
  assign-Within k v low high ((i, w) ∷ m) a b h = ground (arith, assign-Within k v (suc i) high m)
