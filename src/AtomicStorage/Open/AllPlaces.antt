-- ===== src/AtomicStorage/Open/AllPlaces.antt =====
-- All places of the tree, each once (src/storage.cpp, the nested loops of `open_volume`).
use chained_block_storage.Base.{ℕ, ◌≤◌, ◌<◌, ◌≡◌, ◌≢◌, refl, ap, List, [], ◌∷◌, All, All-map, arith}
use chained_block_storage.AtomicStorage.Index.{num_indirect, num_entries}
use chained_block_storage.AtomicStorage.Commit.{collect}
use chained_block_storage.AtomicStorage.Open.Places.{
  collect-All, of_collect, collect-DistinctPlaces,
}
use chained_block_storage.AtomicStorage.Tree.{Place, at_root, at_second, at_third, at_last}
use chained_block_storage.AtomicStorage.Tree.Freed.{DistinctPlaces}

abbrev pub third_places : ℕ → ℕ → List Place
third_places j k = at_third j k ∷ collect num_entries 0 (λ l. at_last j k l ∷ [])

abbrev pub second_places : ℕ → List Place
second_places j = at_second j ∷ collect num_indirect 0 (third_places j)

-- The places with indices that a block has.
abbrev pub all_places : List Place
all_places = at_root ∷ collect num_indirect 0 second_places

-- The indices of a place on the way to it.
abbrev second_of : Place → ℕ
second_of at_root = 0
second_of (at_second j) = j
second_of (at_third j k) = j
second_of (at_last j k l) = j

abbrev third_of : Place → ℕ
third_of at_root = 0
third_of (at_second j) = 0
third_of (at_third j k) = k
third_of (at_last j k l) = k

abbrev last_of : Place → ℕ
last_of at_root = 0
last_of (at_second j) = 0
last_of (at_third j k) = 0
last_of (at_last j k l) = l

-- The level of a place, which tells it from those below.
abbrev level : Place → ℕ
level at_root = 0
level (at_second j) = 1
level (at_third j k) = 2
level (at_last j k l) = 3

level_ne :
    (p : Place) (qs : List Place) (n : ℕ)
    → level p < n
    → All (λ q. n ≤ level q) qs
    → All (λ q. p ≢ q) qs
level_ne p qs n h a =
    All-map (λ q. n ≤ level q) (λ q. p ≢ q)
      (λ q deep e. absurd (omega (arith, h, deep, ap level e))) qs a

third_places-Distinct : (j k : ℕ) → DistinctPlaces (third_places j k)
third_places-Distinct j k =
    let g : ℕ → List Place = λ l. at_last j k l ∷ [] in
    (
      level_ne (at_third j k) (collect num_entries 0 g) 3 (omega arith)
          (collect-All (λ q. 3 ≤ level q) num_entries 0 g (λ l. (omega arith, tt))),
      collect-DistinctPlaces last_of g (λ l. (refl, tt)) num_entries 0 (λ l. (tt, tt)),
    )

third_places-second_of : (j k : ℕ) → All (λ p. second_of p ≡ j) (third_places j k)
third_places-second_of j k = (
  refl,
  collect-All (λ p. second_of p ≡ j) num_entries 0 (λ l. at_last j k l ∷ []) (λ l. (refl, tt)),
)

third_places-third_of : (j k : ℕ) → All (λ p. third_of p ≡ k) (third_places j k)
third_places-third_of j k = (
  refl,
  collect-All (λ p. third_of p ≡ k) num_entries 0 (λ l. at_last j k l ∷ []) (λ l. (refl, tt)),
)

third_places-level : (j k : ℕ) → All (λ q. 2 ≤ level q) (third_places j k)
third_places-level j k = (
  omega arith,
  collect-All (λ q. 2 ≤ level q) num_entries 0 (λ l. at_last j k l ∷ []) (λ l. (omega arith, tt)),
)

second_places-Distinct : (j : ℕ) → DistinctPlaces (second_places j)
second_places-Distinct j = (
  level_ne (at_second j) (collect num_indirect 0 (third_places j)) 2 (omega arith)
      (collect-All (λ q. 2 ≤ level q) num_indirect 0 (third_places j) (third_places-level j)),
  collect-DistinctPlaces third_of (third_places j) (third_places-third_of j) num_indirect 0
      (third_places-Distinct j),
)

second_places-second_of : (j : ℕ) → All (λ p. second_of p ≡ j) (second_places j)
second_places-second_of j = (
  refl,
  collect-All (λ p. second_of p ≡ j) num_indirect 0 (third_places j) (third_places-second_of j),
)

second_places-level : (j : ℕ) → All (λ q. 1 ≤ level q) (second_places j)
second_places-level j = (
  omega arith,
  collect-All (λ q. 1 ≤ level q) num_indirect 0 (third_places j)
      (λ k.
        All-map (λ q. 2 ≤ level q) (λ q. 1 ≤ level q) (λ q h. omega (arith, h)) (third_places j k)
          (third_places-level j k)),
)

pub all_places-Distinct : DistinctPlaces all_places
all_places-Distinct = (
  level_ne at_root (collect num_indirect 0 second_places) 1 (omega arith)
      (collect-All (λ q. 1 ≤ level q) num_indirect 0 second_places second_places-level),
  collect-DistinctPlaces second_of second_places second_places-second_of num_indirect 0
      second_places-Distinct,
)

-- The indices are those of places in a block.
abbrev pub InRange : Place → Type 0
InRange at_root = Unit
InRange (at_second j) = j < num_indirect
InRange (at_third j k) = (j < num_indirect) × (k < num_indirect)
InRange (at_last j k l) = (j < num_indirect) × (k < num_indirect) × (l < num_entries)

-- What holds for all the places holds for each in range.
pub of_all_places : (P : Place → Type 0) → All P all_places → (p : Place) → InRange p → P p
of_all_places P a at_root h = a.0
of_all_places P a (at_second j) h =
    (of_collect P num_indirect 0 second_places j a.1 (omega arith) (omega (arith, h))).0
of_all_places P a (at_third j k) h =
    let second =
      of_collect P num_indirect 0 second_places j a.1 (omega arith) (omega (arith, h.0)) in
    (of_collect P num_indirect 0 (third_places j) k second.1 (omega arith) (omega (arith, h.1))).0
of_all_places P a (at_last j k l) h =
    let second =
      of_collect P num_indirect 0 second_places j a.1 (omega arith) (omega (arith, h.0)) in
    let third =
      of_collect P num_indirect 0 (third_places j) k second.1 (omega arith) (omega (arith, h.1)) in
    (of_collect P num_entries 0 (λ x. at_last j k x ∷ []) l third.1 (omega arith)
      (omega (arith, h.2))).0
