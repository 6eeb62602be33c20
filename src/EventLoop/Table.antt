-- ===== src/EventLoop/Table.antt =====
-- `std::map<int, Registration>` of transport_event_loop.hpp: entries by ascending token.
use dlms_transport.Prelude.{
  ℕ, suc, ◌≤◌, ◌<◌, List, [], ◌∷◌, Option, none, some, ltb, ◌==◌, if◌then◌else◌,
}

module _ {ℓ} {V : Type ℓ} where
  unfoldable pub find : ℕ → List (ℕ × V) → Option V
  find k [] = none
  find k ((j, v) ∷ m) = if j == k then some v else find k m

  unfoldable pub erase : ℕ → List (ℕ × V) → List (ℕ × V)
  erase k [] = []
  erase k ((j, v) ∷ m) = if j == k then m else (j, v) ∷ erase k m

  -- `m[k] = v`
  unfoldable pub assign : ℕ → V → List (ℕ × V) → List (ℕ × V)
  assign k v [] = (k, v) ∷ []
  assign k v ((j, w) ∷ m) =
      if ltb k j then (k, v) ∷ (j, w) ∷ m else if j == k then (k, v) ∷ m else (j, w) ∷ assign k v m

  -- The keys ascend, from `low` up to below `high`.
  abbrev pub Within : ℕ → ℕ → List (ℕ × V) → Type 0
  Within low high [] = low ≤ high
  Within low high ((j, v) ∷ m) = (low ≤ j) × (j < high) × Within (suc j) high m
