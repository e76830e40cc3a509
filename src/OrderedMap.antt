-- ===== src/OrderedMap.antt =====
-- `std::map` with a comparator, as the program uses it: a list of entries in rising order of key.
-- Two keys are the same when neither is below the other, as the standard library has it.
pub mod Laws
pub mod Append
use chained_block_storage.Base.{
  ◌≡◌, Bool, true, false, not, ◌&&◌, Option, none, some, List, [], ◌∷◌, if◌then◌else◌,
}

-- What a comparator has to be for `std::map`: a strict total order.
pub record Order (K : Type 0) : Type 0 where
  pub lt : K → K → Bool
  pub irrefl : (a : K) → lt a a ≡ false
  pub trans : (a b c : K) → lt a b ≡ true → lt b c ≡ true → lt a c ≡ true
  pub same_eq : (a b : K) → lt a b ≡ false → lt b a ≡ false → a ≡ b

abbrev pub OrderedMap : Type 0 → Type 0 → Type 0
OrderedMap K V = List (K × V)

module _ {K V : Type 0} (o : Order K) where
  -- `find(k)->second`; `none` stands for `end()`.
  unfoldable pub find : K → OrderedMap K V → Option V
  find k [] = none
  find k ((j, v) ∷ m) = if o.lt k j then none else if o.lt j k then find k m else some v

  -- `insert({k, v}).first` in its map: an entry that is there already stays.
  unfoldable pub insert : K → V → OrderedMap K V → OrderedMap K V
  insert k v [] = (k, v) ∷ []
  insert k v ((j, w) ∷ m) =
      if o.lt k j
      then (k, v) ∷ (j, w) ∷ m
      else if o.lt j k
      then (j, w) ∷ insert k v m
      else (j, w) ∷ m

  -- `insert({k, v}).second`.
  unfoldable pub is_new : K → OrderedMap K V → Bool
  unfolding find
  is_new k m = elim (find k m) [ none ↦ true | some _ ↦ false ]

  -- `find(k)->second = v`, where the entry is there.
  unfoldable pub assign : K → V → OrderedMap K V → OrderedMap K V
  assign k v [] = []
  assign k v ((j, w) ∷ m) =
      if o.lt k j then (j, w) ∷ m else if o.lt j k then (j, w) ∷ assign k v m else (j, v) ∷ m

  -- `erase(find(k))`.
  unfoldable pub erase : K → OrderedMap K V → OrderedMap K V
  erase k [] = []
  erase k ((j, w) ∷ m) = if o.lt k j then (j, w) ∷ m else if o.lt j k then (j, w) ∷ erase k m else m

  -- The entries from `find(k)` to `end()`.
  unfoldable pub from : K → OrderedMap K V → OrderedMap K V
  from k [] = []
  from k ((j, w) ∷ m) = if o.lt k j then [] else if o.lt j k then from k m else (j, w) ∷ m

  -- Every key of the map lies above `k`.
  abbrev pub Above : K → OrderedMap K V → Type 0
  Above k [] = Unit
  Above k ((j, w) ∷ m) = (o.lt k j ≡ true) × Above k m

  -- The keys rise strictly, so none stands twice.
  abbrev pub IsSorted : OrderedMap K V → Type 0
  IsSorted [] = Unit
  IsSorted ((j, w) ∷ m) = Above j m × IsSorted m
