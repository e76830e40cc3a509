-- ===== src/OrderedMap/Append.antt =====
-- Entries that come in rising order, and what is inserted and taken out again.
use mathlib.Core.List.{append-nil, append_assoc}
use chained_block_storage.Base.{
  ◌≡◌, refl, ◌∙◌, true, none, some, [], ◌∷◌, ◌++◌, All, All-append, arith, if◌then◌else◌,
}
use chained_block_storage.OrderedMap.{Order, OrderedMap, find, insert, erase, from, Above, IsSorted}

module _ {K V : Type 0} (o : Order K) where
  -- Every key of the map lies below `k`.
  abbrev pub Below : OrderedMap K V → K → Type 0
  Below m k = All (λ e. o.lt e.0 k ≡ true) m

  pub insert_last :
      (k : K) (v : V) (m : OrderedMap K V) → Below m k → insert o k v m ≡ m ++ (k, v) ∷ []
  unfolding insert
  insert_last k v [] h = refl
  insert_last k v ((j, w) ∷ m) h =
      ground (arith, insert_last k v m h.1, o.trans j k j h.0, o.irrefl j)

  pub Below-extend :
      (acc : OrderedMap K V) (k : K) (v : V) (m : OrderedMap K V)
      → All (λ e. Below acc e.0) m
      → Above o k m
      → All (λ e. Below (acc ++ (k, v) ∷ []) e.0) m
  Below-extend acc k v [] h u = tt
  Below-extend acc k v ((j, w) ∷ m) h u =
      (All-append _ acc ((k, v) ∷ []) h.0 (u.0, tt), Below-extend acc k v m h.1 u.1)

  pub Below-nil : (m : OrderedMap K V) → All (λ e. Below [] e.0) m
  Below-nil [] = tt
  Below-nil (e ∷ m) = (tt, Below-nil m)

  -- A loop that inserts the entries of a range into another map, one after the other.
  unfoldable pub copy : OrderedMap K V → OrderedMap K V → OrderedMap K V
  copy [] acc = acc
  copy ((k, v) ∷ m) acc = copy m (insert o k v acc)

  pub copy-append :
      (m acc : OrderedMap K V) → IsSorted o m → All (λ e. Below acc e.0) m → copy m acc ≡ acc ++ m
  unfolding copy
  copy-append [] acc s b = rw append-nil
  copy-append ((k, v) ∷ m) acc s b = rw (insert_last k v acc b.0) (
      copy-append m (acc ++ (k, v) ∷ []) s.1 (Below-extend acc k v m b.1 s.0)
      ∙ append_assoc acc ((k, v) ∷ []) m)

  pub erase-insert :
      (k : K) (v : V) (m : OrderedMap K V) → find o k m ≡ none → erase o k (insert o k v m) ≡ m
  unfolding find insert erase
  erase-insert k v [] h = ground (arith, o.irrefl k)
  erase-insert k v ((j, w) ∷ m) h = ground (arith, o.irrefl k, erase-insert k v m)

  from-Above : (a k : K) (m : OrderedMap K V) → Above o a m → Above o a (from o k m)
  unfolding from
  from-Above a k [] u = tt
  from-Above a k ((j, w) ∷ m) u = ground (arith, from-Above a k m)

  pub from-IsSorted : (k : K) (m : OrderedMap K V) → IsSorted o m → IsSorted o (from o k m)
  unfolding from
  from-IsSorted k [] s = tt
  from-IsSorted k ((j, w) ∷ m) s = ground (arith, from-IsSorted k m)

  -- The entries from `k` on, where `k` is there, are those whose keys are not below `k`.
  pub find-from :
      (k j : K) (v : V) (m : OrderedMap K V)
      → find o k m ≡ some v
      → find o j (from o k m) ≡ (if o.lt j k then none else find o j m)
  unfolding find from
  find-from k j v [] h = ground arith
  find-from k j v ((i, w) ∷ m) h =
      ground (arith, find-from k j v m, o.same_eq k i, o.same_eq j i, o.trans j i k)
