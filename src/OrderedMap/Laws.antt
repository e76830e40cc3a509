-- ===== src/OrderedMap/Laws.antt =====
-- The laws of an ordered map: what each operation does to a search, and that the order is kept.
use chained_block_storage.Base.{◌≡◌, refl, ◌≢◌, true, none, some, [], ◌∷◌, arith}
use chained_block_storage.OrderedMap.{
  Order, OrderedMap, find, insert, assign, erase, Above, IsSorted,
}

module _ {K V : Type 0} (o : Order K) where
  Above-trans : (a b : K) (m : OrderedMap K V) → o.lt a b ≡ true → Above o b m → Above o a m
  Above-trans a b [] h u = tt
  Above-trans a b ((j, w) ∷ m) h u = (o.trans a b j h u.0, Above-trans a b m h u.1)

  pub find_of_Above : (k : K) (m : OrderedMap K V) → Above o k m → find o k m ≡ none
  unfolding find
  find_of_Above k [] h = refl
  find_of_Above k ((j, w) ∷ m) h = ground arith

  insert-Above :
      (a k : K) (v : V) (m : OrderedMap K V)
      → o.lt a k ≡ true
      → Above o a m
      → Above o a (insert o k v m)
  unfolding insert
  insert-Above a k v [] h u = (h, tt)
  insert-Above a k v ((j, w) ∷ m) h u = ground (arith, insert-Above a k v m)

  pub insert-IsSorted :
      (k : K) (v : V) (m : OrderedMap K V) → IsSorted o m → IsSorted o (insert o k v m)
  unfolding insert
  insert-IsSorted k v [] s = (tt, tt)
  insert-IsSorted k v ((j, w) ∷ m) s =
      ground (arith, insert-Above j k v m, insert-IsSorted k v m, Above-trans k j m)

  assign-Above : (a k : K) (v : V) (m : OrderedMap K V) → Above o a m → Above o a (assign o k v m)
  unfolding assign
  assign-Above a k v [] u = tt
  assign-Above a k v ((j, w) ∷ m) u = ground (arith, assign-Above a k v m)

  pub assign-IsSorted :
      (k : K) (v : V) (m : OrderedMap K V) → IsSorted o m → IsSorted o (assign o k v m)
  unfolding assign
  assign-IsSorted k v [] s = tt
  assign-IsSorted k v ((j, w) ∷ m) s = ground (arith, assign-Above j k v m, assign-IsSorted k v m)

  erase-Above : (a k : K) (m : OrderedMap K V) → Above o a m → Above o a (erase o k m)
  unfolding erase
  erase-Above a k [] u = tt
  erase-Above a k ((j, w) ∷ m) u = ground (arith, erase-Above a k m)

  pub erase-IsSorted : (k : K) (m : OrderedMap K V) → IsSorted o m → IsSorted o (erase o k m)
  unfolding erase
  erase-IsSorted k [] s = tt
  erase-IsSorted k ((j, w) ∷ m) s = ground (arith, erase-Above j k m, erase-IsSorted k m)

  -- A search for the key that was inserted: what stood there before, or else the new value.
  pub find-insert_self :
      (k : K) (v : V) (m : OrderedMap K V)
      → find o k (insert o k v m) ≡ (elim (find o k m) [ none ↦ some v | some w ↦ some w ])
  unfolding find insert
  find-insert_self k v [] = ground (arith, o.irrefl k)
  find-insert_self k v ((j, w) ∷ m) = ground (arith, o.irrefl k, find-insert_self k v m)

  pub find-insert_ne :
      (k j : K) (v : V) (m : OrderedMap K V)
      → IsSorted o m
      → j ≢ k
      → find o j (insert o k v m) ≡ find o j m
  unfolding find insert
  find-insert_ne k j v [] s h = ground (arith, o.same_eq j k)
  find-insert_ne k j v ((i, w) ∷ m) s h =
      ground (arith, o.same_eq j k, o.trans j k i, find-insert_ne k j v m)

  pub find-assign_self :
      (k : K) (v w : V) (m : OrderedMap K V)
      → find o k m ≡ some w
      → find o k (assign o k v m) ≡ some v
  unfolding find assign
  find-assign_self k v w [] h = cc
  find-assign_self k v w ((j, u) ∷ m) h = ground (arith, find-assign_self k v w m)

  pub find-assign_ne :
      (k j : K) (v : V) (m : OrderedMap K V) → j ≢ k → find o j (assign o k v m) ≡ find o j m
  unfolding find assign
  find-assign_ne k j v [] h = refl
  find-assign_ne k j v ((i, w) ∷ m) h =
      ground (arith, o.same_eq j i, o.same_eq k i, find-assign_ne k j v m)

  pub find-erase_self : (k : K) (m : OrderedMap K V) → IsSorted o m → find o k (erase o k m) ≡ none
  unfolding find erase
  find-erase_self k [] s = refl
  find-erase_self k ((j, w) ∷ m) s =
      ground (arith, find-erase_self k m, o.same_eq k j, find_of_Above k m)

  pub find-erase_ne :
      (k j : K) (m : OrderedMap K V) → IsSorted o m → j ≢ k → find o j (erase o k m) ≡ find o j m
  unfolding find erase
  find-erase_ne k j [] s h = refl
  find-erase_ne k j ((i, w) ∷ m) s h = ground (
    arith,
    o.same_eq j i,
    o.same_eq k i,
    find_of_Above j m,
    Above-trans j i m,
    find-erase_ne k j m,
  )
