-- ===== src/FileOperation/Tracker/PathMap.antt =====
-- `std::map` with paths for keys, which the tracker only inserts into, looks up and erases from: an
-- association list in any order.
use process_snapshot.Prelude.{
  Text, List, [], ◌∷◌, Option, none, some, ◌≡◌, text_eq, text_eq_refl, if◌then◌else◌, arith,
}

module _ {ℓ} {V : Type ℓ} where
  unfoldable pub find : Text → List (Text × V) → Option V
  find k [] = none
  find k ((j, v) ∷ m) = if text_eq j k then some v else find k m

  unfoldable pub insert : Text → V → List (Text × V) → List (Text × V)
  insert k v [] = (k, v) ∷ []
  insert k v ((j, w) ∷ m) = if text_eq j k then (k, v) ∷ m else (j, w) ∷ insert k v m

  unfoldable pub erase : Text → List (Text × V) → List (Text × V)
  erase k [] = []
  erase k ((j, v) ∷ m) = let rest = erase k m in if text_eq j k then rest else (j, v) ∷ rest

  pub find-insert_self : (k : Text) (v : V) (m : List (Text × V)) → find k (insert k v m) ≡ some v
  unfolding find insert
  find-insert_self k v [] = ground (arith, text_eq_refl k)
  find-insert_self k v ((j, w) ∷ m) = ground (arith, text_eq_refl k, find-insert_self k v m)
