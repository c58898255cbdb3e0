-- ===== src/OrderedMap.antt =====
-- `std::map` with numbers for keys: an association list that insertion keeps in ascending order.
-- Iteration goes through it from the front.
pub mod Laws
use process_snapshot.Prelude.{
  ℕ, ◌<◌, List, [], ◌∷◌, Option, none, some, Bool, true, false, map, All, ltb, ◌==◌, if◌then◌else◌,
}

module _ {ℓ} {V : Type ℓ} where
  unfoldable pub find : ℕ → List (ℕ × V) → Option V
  find k [] = none
  find k ((j, v) ∷ m) = if j == k then some v else find k m

  unfoldable pub insert : ℕ → V → List (ℕ × V) → List (ℕ × V)
  insert k v [] = (k, v) ∷ []
  insert k v ((j, w) ∷ m) =
      let later = (j, w) ∷ insert k v m in
      if ltb k j then (k, v) ∷ (j, w) ∷ m else if k == j then (k, v) ∷ m else later

  unfoldable pub erase : ℕ → List (ℕ × V) → List (ℕ × V)
  erase k [] = []
  erase k ((j, v) ∷ m) = let rest = erase k m in if j == k then rest else (j, v) ∷ rest

  abbrev pub keys : List (ℕ × V) → List ℕ
  keys [] = []
  keys ((k, v) ∷ m) = k ∷ keys m

  -- Ascending keys, none of them twice.
  abbrev pub IsSorted : List (ℕ × V) → Type ℓ
  IsSorted [] = Unit
  IsSorted ((k, v) ∷ m) = All (λ e. k < e.0) m × IsSorted m

abbrev pub is_some {ℓ} : {A : Type ℓ} → Option A → Bool
is_some none = false
is_some (some a) = true

unfoldable pub contains : ℕ → List ℕ → Bool
contains k [] = false
contains k (j ∷ l) = if j == k then true else contains k l
