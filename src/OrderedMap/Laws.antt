-- ===== src/OrderedMap/Laws.antt =====
-- Laws of lookup, insertion, removal and order in these maps.
use process_snapshot.Prelude.{
  ℕ, ◌<◌, ◌≡◌, refl, List, [], ◌∷◌, none, some, All, ltb, ◌==◌, if◌then◌else◌, arith, inl, inr,
  Bool-cases, sym, subst,
}
use process_snapshot.OrderedMap.{find, insert, erase, keys, IsSorted, is_some, contains}

module _ {ℓ} {V : Type ℓ} where
  pub find-insert :
      (j k : ℕ) (v : V) (m : List (ℕ × V))
      → find j (insert k v m) ≡ (if k == j then some v else find j m)
  unfolding find insert
  find-insert j k v [] = refl
  find-insert j k v ((i, w) ∷ m) = ground (arith, find-insert j k v m)

  pub find-erase :
      (j k : ℕ) (m : List (ℕ × V)) → find j (erase k m) ≡ (if k == j then none else find j m)
  unfolding find erase
  find-erase j k [] = ground arith
  find-erase j k ((i, w) ∷ m) = ground (arith, find-erase j k m)

  pub contains-keys : (k : ℕ) (m : List (ℕ × V)) → contains k (keys m) ≡ is_some (find k m)
  unfolding contains find
  contains-keys k [] = refl
  contains-keys k ((j, v) ∷ m) = ground (arith, contains-keys k m)

  pub All-insert {κ} :
      (P : ℕ × V → Type κ) (k : ℕ) (v : V) (m : List (ℕ × V))
      → P (k, v)
      → All P m
      → All P (insert k v m)
  unfolding insert
  All-insert P k v [] p h = (p, tt)
  All-insert P k v ((j, w) ∷ m) p h = elim (Bool-cases (ltb k j)) [
    | inl before ↦ rw before (p, h)
    | inr not_before ↦ elim (Bool-cases (k == j)) [
      | inl here ↦ rw (not_before, here) (p, h.1)
      | inr behind ↦ rw (not_before, behind) (h.0, All-insert P k v m p h.1)
    ]
  ]

  pub All-erase {κ} : (P : ℕ × V → Type κ) (k : ℕ) (m : List (ℕ × V)) → All P m → All P (erase k m)
  unfolding erase
  All-erase P k [] h = tt
  All-erase P k ((j, w) ∷ m) h = elim (Bool-cases (j == k)) [
    | inl here ↦ rw here (All-erase P k m h.1)
    | inr other ↦ rw other (h.0, All-erase P k m h.1)
  ]

  pub All-find {κ} :
      (P : ℕ × V → Type κ) (k : ℕ) (m : List (ℕ × V)) {v : V}
      → All P m
      → find k m ≡ some v
      → P (k, v)
  unfolding find
  All-find P k [] h e = cc
  All-find P k ((j, w) ∷ m) {v} h e = elim (Bool-cases (j == k)) [
    | inl here ↦
        let same : j ≡ k = ground arith in
        let found : w ≡ v = ground arith in
        subst (λ x. P (x, v)) same (subst (λ x. P (j, x)) found h.0)
    | inr other ↦ All-find P k m h.1 (ground arith)
  ]

  All-below : (i k : ℕ) (m : List (ℕ × V)) → i < k → All (λ e. k < e.0) m → All (λ e. i < e.0) m
  All-below i k [] lt h = tt
  All-below i k ((j, w) ∷ m) lt h = (omega (arith, h.0), All-below i k m lt h.1)

  pub insert-IsSorted : (k : ℕ) (v : V) (m : List (ℕ × V)) → IsSorted m → IsSorted (insert k v m)
  unfolding insert
  insert-IsSorted k v [] h = (tt, tt)
  insert-IsSorted k v ((j, w) ∷ m) h = elim (Bool-cases (ltb k j)) [
    | inl before ↦ let lt : k < j = ground arith in rw before ((lt, All-below k j m lt h.0), h)
    | inr not_before ↦ elim (Bool-cases (k == j)) [
      | inl here ↦
          let e : k ≡ j = ground arith in
          rw (not_before, here) (subst (λ i. All (λ e. i < e.0) m) (sym e) h.0, h.1)
      | inr behind ↦
          let lt : j < k = ground arith in
          rw (not_before, behind)
            (All-insert (λ e. j < e.0) k v m lt h.0, insert-IsSorted k v m h.1)
    ]
  ]

  pub erase-IsSorted : (k : ℕ) (m : List (ℕ × V)) → IsSorted m → IsSorted (erase k m)
  unfolding erase
  erase-IsSorted k [] h = tt
  erase-IsSorted k ((j, w) ∷ m) h = elim (Bool-cases (j == k)) [
    | inl here ↦ rw here (erase-IsSorted k m h.1)
    | inr other ↦ rw other (All-erase (λ e. j < e.0) k m h.0, erase-IsSorted k m h.1)
  ]
