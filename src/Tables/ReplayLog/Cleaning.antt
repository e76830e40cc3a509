-- ===== src/Tables/ReplayLog/Cleaning.antt =====
-- What `cleanOldLogEntry` takes out of the log and what it leaves.
use chained_block_storage.Base.{
  ℕ, ◌≡◌, ◌≢◌, refl, ap, ◌∙◌, Bool, ◌&&◌, ltb, ◌+◌, true, false, Option, none, some, List, [], ◌∷◌,
  All, arith, ite, if◌then◌else◌,
}
use chained_block_storage.UnorderedMap
use chained_block_storage.OrderedMap.{IsSorted}
use chained_block_storage.UnorderedMap.{IsDistinct}
use chained_block_storage.UnorderedMap.Laws.{find-erase, erase-IsDistinct, erase-All}
use chained_block_storage.Tables.Request.{ClientRequestId, Timestamp, timestamp_lt, timestamp_order}
use chained_block_storage.Tables.Identifier.{identifier, Text-discrete}
use chained_block_storage.Tables.ReplayLog.{
  TimestampList, ReplayLog, find_client, is_outdated, to_remove, remove_clients,
  clean_old_log_entry,
}
use chained_block_storage.Tables.ReplayLog.Status.{IsValid, IsSortedEntry}

abbrev find_name : List ℕ → ReplayLog → Option TimestampList
find_name = UnorderedMap.find Text-discrete

-- Every request of the list was made more than `age` seconds before `now`, and there is one.
unfoldable pub all_older : ℕ → ℕ → TimestampList → Bool
all_older age now [] = false
all_older age now ((t, _) ∷ []) = ltb (t.seconds + age) now
all_older age now ((t, _) ∷ e ∷ rest) = ltb (t.seconds + age) now && all_older age now (e ∷ rest)

-- What is left of a client's list by a cleaning.
abbrev pub kept_in : ℕ → ℕ → Option TimestampList → Option TimestampList
kept_in age now none = none
kept_in age now (some entry) = if all_older age now entry then none else some entry

all_older-head :
    (age now : ℕ) (t : Timestamp) (c : Bool) (rest : TimestampList)
    → all_older age now ((t, c) ∷ rest) ≡ true
    → ltb (t.seconds + age) now ≡ true
unfolding all_older
all_older-head age now t c [] h = h
all_older-head age now t c (e ∷ rest) h = ground arith

-- The code looks at the last request only, which is the newest in a list that is in order.
is_outdated-eq-all_older :
    (age now : ℕ) (entry : TimestampList)
    → IsSorted timestamp_order entry
    → is_outdated age now entry ≡ all_older age now entry
unfolding is_outdated all_older timestamp_lt
is_outdated-eq-all_older age now [] s = refl
is_outdated-eq-all_older age now ((t, c) ∷ []) s = ground arith
is_outdated-eq-all_older age now ((t, c) ∷ (u, d) ∷ rest) s =
    ground
      (arith, is_outdated-eq-all_older age now ((u, d) ∷ rest) s.1, all_older-head age now u d rest)

-- One name of the list of names.
is_listed : List ℕ → List (List ℕ) → Bool
is_listed n [] = false
is_listed n (m ∷ ms) = ite (Text-discrete m n) true (is_listed n ms)

find-remove_clients :
    (n : List ℕ) (names : List (List ℕ)) (log : ReplayLog)
    → IsDistinct log
    → find_name n (remove_clients names log) ≡ (if is_listed n names then none else find_name n log)
unfolding remove_clients is_listed
find-remove_clients n [] log d = refl
find-remove_clients n (m ∷ ms) log d = ground (
  arith,
  find-remove_clients n ms (UnorderedMap.erase Text-discrete m log)
      (erase-IsDistinct Text-discrete m log d),
  find-erase Text-discrete n m log d,
)

not_listed :
    (age now : ℕ) (n : List ℕ) (log : ReplayLog)
    → All (λ e. e.0 ≢ n) log
    → is_listed n (to_remove age now log) ≡ false
unfolding is_listed to_remove
not_listed age now n [] h = refl
not_listed age now n ((m, entry) ∷ log) h = ground (arith, not_listed age now n log h.1)

listed-to_remove :
    (age now : ℕ) (n : List ℕ) (log : ReplayLog)
    → IsValid log
    → (if is_listed n (to_remove age now log) then none else find_name n log)
      ≡ kept_in age now (find_name n log)
unfolding is_listed to_remove UnorderedMap.find
listed-to_remove age now n [] d = refl
listed-to_remove age now n ((m, entry) ∷ log) d = ground (
  arith,
  listed-to_remove age now n log (record { distinct = d.distinct.1; sorted = d.sorted.1 }),
  not_listed age now m log d.distinct.0,
  ap (λ k. is_listed k (to_remove age now log)),
  is_outdated-eq-all_older age now entry d.sorted.0,
)

remove_clients-IsValid :
    (names : List (List ℕ)) (log : ReplayLog) → IsValid log → IsValid (remove_clients names log)
unfolding remove_clients
remove_clients-IsValid [] log v = v
remove_clients-IsValid (m ∷ ms) log v = remove_clients-IsValid ms _ (record {
  distinct = erase-IsDistinct Text-discrete m log v.distinct;
  sorted = erase-All Text-discrete IsSortedEntry m log v.sorted;
})

-- A cleaning of a valid log drops a client with all its requests if every one of them was made more
-- than `age` seconds ago, and keeps every other client's list as it is; the log stays valid.
pub find_client-clean_old_log_entry :
    (age now : ℕ) (id : ClientRequestId) (log : ReplayLog)
    → IsValid log
    → (find_client id (clean_old_log_entry age now log) ≡ kept_in age now (find_client id log))
      × IsValid (clean_old_log_entry age now log)
unfolding clean_old_log_entry
find_client-clean_old_log_entry age now id log v = (
  find-remove_clients (identifier id) (to_remove age now log) log v.distinct
      ∙ listed-to_remove age now (identifier id) log v,
  remove_clients-IsValid (to_remove age now log) log v,
)
