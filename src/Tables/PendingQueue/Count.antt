-- ===== src/Tables/PendingQueue/Count.antt =====
-- How often a number stands in a list, and what the operations on the lists of the queue do to it.
use chained_block_storage.Base.{
  ℕ, ◌+◌, ◌-◌, ◌≤◌, ◌≡◌, true, false, List, [], ◌∷◌, map, arith, ◌==◌, if◌then◌else◌,
}
use chained_block_storage.Tables.Request.{int_bits}
use chained_block_storage.Tables.PendingQueue.{Entry, contains, remove, insert_entry}

unfoldable pub count : ℕ → List ℕ → ℕ
count k [] = 0
count k (x ∷ xs) = (if x == k then 1 else 0) + count k xs

-- The keys under which the entries stand in the set of ints.
abbrev pub keys : List Entry → List ℕ
keys = map (λ e. int_bits e.seq_num)

pub count_of_contains : (k : ℕ) (xs : List ℕ) → contains k xs ≡ true → 1 ≤ count k xs
unfolding contains count
count_of_contains k [] h = ground arith
count_of_contains k (x ∷ xs) h = ground (arith, count_of_contains k xs)

pub count_of_not_contains : (k : ℕ) (xs : List ℕ) → contains k xs ≡ false → count k xs ≡ 0
unfolding contains count
count_of_not_contains k [] h = ground arith
count_of_not_contains k (x ∷ xs) h = ground (arith, count_of_not_contains k xs)

pub count-remove :
    (k j : ℕ) (xs : List ℕ) → count k (remove j xs) ≡ count k xs - (if j == k then 1 else 0)
unfolding count remove
count-remove k j [] = ground arith
count-remove k j (x ∷ xs) = ground (arith, count-remove k j xs)

pub count-insert_entry :
    (k : ℕ) (e : Entry) (xs : List Entry)
    → count k (keys (insert_entry e xs))
      ≡ (if int_bits e.seq_num == k then 1 else 0) + count k (keys xs)
unfolding count insert_entry
count-insert_entry k e [] = ground arith
count-insert_entry k e (x ∷ xs) = ground (arith, count-insert_entry k e xs)
