-- ===== src/MemoryManager/Compare/Laws.antt =====
-- What a comparison of two memory maps reports.
use process_snapshot.Prelude.{
  ℕ, ◌+◌, ◌%◌, ◌≡◌, refl, List, [], ◌∷◌, ◌++◌, Option, none, some, Bool, true, false, not, ◌&&◌,
  ◌||◌, ◌==◌, map, Bool-cases, inl, inr, arith, ap, ap₂, sym, ◌∙◌, if_true, if_false,
}
use process_snapshot.Wire.{u64_mod}
use process_snapshot.OrderedMap.{contains, find, insert}
use process_snapshot.OrderedMap.Laws.{find-insert}
use process_snapshot.Memory.{MemoryRegion, size}
use process_snapshot.Aslr.{last_such}
use process_snapshot.MemoryManager.Compare.{
  AddressSpaceComparison, is_empty, has_changes, by_address, offsets, add_missing, compare_moved,
  offset_of, compare_found, compare_regions, extra_regions, compare_address_space,
}

-- What the comparison is for: every region of the one map has the last region at its address in the
-- other, of its size, and every region of the other starts where one of the first does.
abbrev pub every : (MemoryRegion → Bool) → List MemoryRegion → Bool
every test [] = true
every test (r ∷ regions) = test r && every test regions

unfoldable pub has_size : MemoryRegion → Option MemoryRegion → Bool
has_size r none = false
has_size r (some cur) = size r == size cur

abbrev pub starts : List MemoryRegion → List ℕ
starts regions = map (λ (r : MemoryRegion). r.start_addr) regions

unfoldable pub is_unchanged : List MemoryRegion → List MemoryRegion → Bool
is_unchanged checkpoint_map current_map =
    every (λ r. has_size r (last_such (λ cur. cur.start_addr == r.start_addr) none current_map))
      checkpoint_map
    && every (λ cur. contains cur.start_addr (starts checkpoint_map)) current_map

find-by_address :
    (a : ℕ) (regions : List MemoryRegion) (index : List (ℕ × MemoryRegion))
    → find a (by_address regions index)
      ≡ last_such (λ cur. cur.start_addr == a) (find a index) regions
unfolding by_address last_such
find-by_address a [] index = refl
find-by_address a (r ∷ regions) index =
    find-by_address a regions (insert r.start_addr r index)
    ∙ ap (λ found. last_such (λ cur. cur.start_addr == a) found regions)
        (find-insert a r.start_addr r index)

is_empty-add {ℓ} : {A : Type ℓ} (l : List A) (a : A) → is_empty (l ++ a ∷ []) ≡ false
is_empty-add [] a = refl
is_empty-add (b ∷ rest) a = refl

-- Nothing is missing and nothing moved.
abbrev quiet : AddressSpaceComparison → Bool
quiet c = is_empty c.missing && is_empty c.moved

false_and : (b : Bool) → false ≡ (b && false)
false_and true = refl
false_and false = refl

quiet-missing :
    (r : MemoryRegion) (c : AddressSpaceComparison) → quiet (add_missing r c) ≡ (quiet c && false)
quiet-missing r c = ap (λ b. b && is_empty c.moved) (is_empty-add c.missing r) ∙ false_and (quiet c)

quiet-moved :
    (p : MemoryRegion × MemoryRegion) (c : AddressSpaceComparison)
    → quiet (record c { moved = c.moved ++ p ∷ [] }) ≡ (quiet c && false)
quiet-moved p c =
    ap (λ b. is_empty c.missing && b) (is_empty-add c.moved p)
    ∙ sym (false_and (is_empty c.missing))
    ∙ false_and (quiet c)

quiet-compare_moved :
    (r : MemoryRegion) (expected : ℕ) (found : Option MemoryRegion) (c : AddressSpaceComparison)
    (matched : List ℕ)
    → quiet (compare_moved r expected found c matched).0 ≡ (quiet c && false)
unfolding compare_moved
quiet-compare_moved r expected none c matched = quiet-missing r c
quiet-compare_moved r expected (some cur) c matched = elim (Bool-cases (size cur == size r)) [
  | inl same ↦ rw same (quiet-moved (r, cur) c)
  | inr other ↦ rw other (quiet-missing r c)
]

and_true : (b : Bool) → b ≡ (b && true)
and_true true = refl
and_true false = refl

quiet-compare_found :
    (index : List (ℕ × MemoryRegion)) (r : MemoryRegion) (found : Option MemoryRegion)
    (c : AddressSpaceComparison) (matched : List ℕ)
    → quiet (compare_found index r found c matched).0 ≡ (quiet c && has_size r found)
unfolding compare_found has_size
quiet-compare_found index r none c matched = elim (Bool-cases c.aslr_detected) [
  | inl on ↦
      ap (λ (x : AddressSpaceComparison × List ℕ). quiet x.0) (if_true _ _ on)
      ∙ quiet-compare_moved r ((r.start_addr + offset_of r c) % u64_mod)
          (find ((r.start_addr + offset_of r c) % u64_mod) index) c matched
  | inr off ↦
      ap (λ (x : AddressSpaceComparison × List ℕ). quiet x.0) (if_false _ _ off) ∙ quiet-missing r c
]
quiet-compare_found index r (some cur) c matched = elim (Bool-cases (size r == size cur)) [
  | inl same ↦ rw same (and_true (quiet c))
  | inr other ↦ rw other (quiet-missing r c)
]

and_assoc : (a b c : Bool) → ((a && b) && c) ≡ (a && (b && c))
and_assoc true b c = refl
and_assoc false b c = refl

quiet-compare_regions :
    (index : List (ℕ × MemoryRegion)) (regions : List MemoryRegion) (c : AddressSpaceComparison)
    (matched : List ℕ)
    → quiet (compare_regions index regions c matched).0
      ≡ (quiet c && every (λ r. has_size r (find r.start_addr index)) regions)
unfolding compare_regions
quiet-compare_regions index [] c matched = and_true (quiet c)
quiet-compare_regions index (r ∷ regions) c matched =
    let found = find r.start_addr index in
    let (c', matched') = compare_found index r found c matched in
    quiet-compare_regions index regions c' matched'
    ∙ ap (λ b. b && every (λ s. has_size s (find s.start_addr index)) regions)
        (quiet-compare_found index r found c matched)
    ∙ and_assoc (quiet c) (has_size r found)
        (every (λ s. has_size s (find s.start_addr index)) regions)

-- While every region is found, the matched addresses are those of the regions gone through.
matched-compare_found :
    (index : List (ℕ × MemoryRegion)) (r : MemoryRegion) (found : Option MemoryRegion)
    (c : AddressSpaceComparison) (matched : List ℕ)
    → has_size r found ≡ true
    → (compare_found index r found c matched).1 ≡ r.start_addr ∷ matched
unfolding compare_found has_size
matched-compare_found index r none c matched h = absurd (cc)
matched-compare_found index r (some cur) c matched h = rw h refl

contains_again :
    (a : ℕ) (s : ℕ) (l m : List ℕ)
    → (contains a (s ∷ l) || contains a m) ≡ (contains a l || contains a (s ∷ m))
unfolding contains
contains_again a s l m = ground arith

contains-compare_regions :
    (index : List (ℕ × MemoryRegion)) (a : ℕ) (regions : List MemoryRegion)
    (c : AddressSpaceComparison) (matched : List ℕ)
    → every (λ r. has_size r (find r.start_addr index)) regions ≡ true
    → contains a (compare_regions index regions c matched).1
      ≡ (contains a matched || contains a (starts regions))
unfolding compare_regions
contains-compare_regions index a [] c matched h = unfold contains in ground arith
contains-compare_regions index a (r ∷ regions) c matched h =
    let found = find r.start_addr index in
    let (c', matched') = compare_found index r found c matched in
    let this : has_size r found ≡ true = ground (arith, h) in
    let rest : every (λ s. has_size s (find s.start_addr index)) regions ≡ true =
      ground (arith, h) in
    contains-compare_regions index a regions c' matched' rest
    ∙ ap (λ m. contains a m || contains a (starts regions))
        (matched-compare_found index r found c matched this)
    ∙ contains_again a r.start_addr matched (starts regions)

is_empty-extra_regions :
    (matched known : List ℕ) (current_map : List MemoryRegion)
    → ((a : ℕ) → contains a matched ≡ contains a known)
    → is_empty (extra_regions matched current_map)
      ≡ every (λ cur. contains cur.start_addr known) current_map
unfolding extra_regions
is_empty-extra_regions matched known [] same = refl
is_empty-extra_regions matched known (cur ∷ current_map) same =
    elim (Bool-cases (contains cur.start_addr matched)) [
      | inl there ↦
          let there' : contains cur.start_addr known ≡ true = sym (same cur.start_addr) ∙ there in
          rw (there, there') (is_empty-extra_regions matched known current_map same)
      | inr new ↦
          let new' : contains cur.start_addr known ≡ false = sym (same cur.start_addr) ∙ new in
          rw (new, new') refl
    ]

every_same :
    (f g : MemoryRegion → Bool) (regions : List MemoryRegion)
    → ((r : MemoryRegion) → f r ≡ g r)
    → every f regions ≡ every g regions
every_same f g [] same = refl
every_same f g (r ∷ regions) same = ap₂ (λ x y. x && y) (same r) (every_same f g regions same)

change_of : (m e v : Bool) → (not m || (not e || not v)) ≡ not ((m && v) && e)
change_of true true true = refl
change_of true true false = refl
change_of true false true = refl
change_of true false false = refl
change_of false e v = refl

-- compareAddressSpace reports a change exactly when a region of the checkpoint has no region of its
-- size at its address now, or a region starts where none of the checkpoint did.
pub has_changes-compare_address_space :
    (checkpoint_map current_map : List MemoryRegion)
    → has_changes (compare_address_space checkpoint_map current_map)
      ≡ not (is_unchanged checkpoint_map current_map)
unfolding has_changes compare_address_space is_unchanged
has_changes-compare_address_space checkpoint_map current_map =
    let index = by_address current_map [] in
    let start = offsets checkpoint_map current_map in
    let (c, matched) = compare_regions index checkpoint_map start [] in
    let kept = every (λ r. has_size r (find r.start_addr index)) checkpoint_map in
    let known = every (λ cur. contains cur.start_addr (starts checkpoint_map)) current_map in
    let still : quiet c ≡ kept =
      quiet-compare_regions index checkpoint_map start [] ∙ unfold offsets in refl in
    let found : kept
        ≡ every
            (λ r. has_size r (last_such (λ cur. cur.start_addr == r.start_addr) none current_map))
            checkpoint_map =
      every_same _ _ checkpoint_map (λ r.
        ap (has_size r) (find-by_address r.start_addr current_map [] ∙ unfold find in refl)) in
    change_of (is_empty c.missing) (is_empty (extra_regions matched current_map)) (is_empty c.moved)
    ∙ ap not (
        elim (Bool-cases kept) [
          | inl all ↦
              ap₂ (λ x y. x && y) still
                (is_empty-extra_regions matched (starts checkpoint_map) current_map (λ a.
                  contains-compare_regions index a checkpoint_map start [] all
                  ∙ unfold contains in refl))
          | inr some_lost ↦
              ap (λ x. x && is_empty (extra_regions matched current_map)) (still ∙ some_lost)
              ∙ ap (λ x. x && known) (sym some_lost)
        ]
        ∙ ap (λ x. x && known) found)
