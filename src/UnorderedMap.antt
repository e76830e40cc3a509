-- ===== src/UnorderedMap.antt =====
-- `std::unordered_map`, as the program uses it: a list of entries with distinct keys, in an order
-- that no caller relies on.
pub mod Laws
use chained_block_storage.Base.{◌≡◌, ◌≢◌, Option, none, some, List, [], ◌∷◌, All, ite}

abbrev pub UnorderedMap : Type 0 → Type 0 → Type 0
UnorderedMap K V = List (K × V)

module _ {K V : Type 0} (dec : Discrete K) where
  -- `find(k)->second`; `none` stands for `end()`.
  unfoldable pub find : K → UnorderedMap K V → Option V
  find k [] = none
  find k ((j, v) ∷ m) = ite (dec j k) (some v) (find k m)

  -- `m[k] = v`, and `insert({k, v})` of a key that is not there.
  unfoldable pub put : K → V → UnorderedMap K V → UnorderedMap K V
  put k v [] = (k, v) ∷ []
  put k v ((j, w) ∷ m) = ite (dec j k) ((j, v) ∷ m) ((j, w) ∷ put k v m)

  -- `erase(k)`.
  unfoldable pub erase : K → UnorderedMap K V → UnorderedMap K V
  erase k [] = []
  erase k ((j, w) ∷ m) = ite (dec j k) m ((j, w) ∷ erase k m)

-- No key stands twice.
abbrev pub IsDistinct : {K V : Type 0} → UnorderedMap K V → Type 0
IsDistinct [] = Unit
IsDistinct ((j, w) ∷ m) = All (λ e. e.0 ≢ j) m × IsDistinct m
