-- ===== src/Tables/ReplayLog/Transfer.antt =====
-- A log that one node sends (`getRelayLogContent`) and another takes over (`initRelayLogContent`).
use mathlib.Core.List.{append-nil, append_assoc}
use chained_block_storage.Base.{
  ℕ, ◌≡◌, refl, ap, ◌∙◌, inl, inr, Option, none, some, List, [], ◌∷◌, ◌++◌, All, arith, ite,
  Option-cases,
}
use chained_block_storage.OrderedMap.{IsSorted}
use chained_block_storage.OrderedMap.Append.{Below, Below-extend, Below-nil, insert_last}
use chained_block_storage.UnorderedMap
use chained_block_storage.UnorderedMap.{IsDistinct}
use chained_block_storage.UnorderedMap.Laws.{find-put, put-IsDistinct, put-All}
use chained_block_storage.Tables.Request.{timestamp_order}
use chained_block_storage.Tables.Identifier.{Text-discrete}
use chained_block_storage.Tables.ReplayLog.{
  TimestampList, ReplayLog, LogEntry, to_entry, get_relay_log_content, from_entry, insert_client,
  init_clients, init_relay_log_content, clear_content,
}
use chained_block_storage.Tables.ReplayLog.Status.{IsValid, IsSortedEntry}

from_entry-to_entry :
    (name : List ℕ) (acc entry : TimestampList)
    → IsSorted timestamp_order entry
    → All (λ e. Below timestamp_order acc e.0) entry
    → from_entry (to_entry name entry).timestamps (to_entry name entry).committed acc
      ≡ some (acc ++ entry)
unfolding from_entry to_entry
from_entry-to_entry name acc [] s b = rw append-nil
from_entry-to_entry name acc ((t, c) ∷ rest) s b = rw (insert_last timestamp_order t c acc b.0) (
    from_entry-to_entry name (acc ++ (t, c) ∷ []) rest s.1
      (Below-extend timestamp_order acc t c rest b.1 s.0)
    ∙ ap some (append_assoc acc ((t, c) ∷ []) rest))

-- The first of two results of a search, if there is one.
abbrev pub or_else : Option TimestampList → Option TimestampList → Option TimestampList
or_else none b = b
or_else (some a) b = some a

abbrev pub find_name : List ℕ → ReplayLog → Option TimestampList
find_name = UnorderedMap.find Text-discrete

find-insert_client :
    (n name : List ℕ) (entry : TimestampList) (log : ReplayLog)
    → find_name n (insert_client name entry log)
      ≡ or_else (find_name n log) (ite (Text-discrete name n) (some entry) none)
unfolding insert_client
find-insert_client n name entry log = ground (
  arith,
  find-put Text-discrete n name entry log,
  λ (e : name ≡ n). ap (λ (k : List ℕ). find_name k log) e,
)

insert_client-IsValid :
    (name : List ℕ) (entry : TimestampList) (log : ReplayLog)
    → IsSorted timestamp_order entry
    → IsValid log
    → IsValid (insert_client name entry log)
unfolding insert_client
insert_client-IsValid name entry log s v = elim (Option-cases (find_name name log)) [
  | inl fresh ↦
      rw (fresh, insert_client)
        (record {
          distinct = put-IsDistinct Text-discrete name entry log v.distinct;
          sorted = put-All Text-discrete IsSortedEntry name entry log (λ j. s) v.sorted;
        })
  | inr (_, old) ↦ rw (old, insert_client) v
]

name-to_entry : (name : List ℕ) (entry : TimestampList) → (to_entry name entry).name ≡ name
unfolding to_entry
name-to_entry name [] = refl
name-to_entry name ((t, c) ∷ entry) = name-to_entry name entry

init_clients-cons :
    (name : List ℕ) (entry : TimestampList) (e : LogEntry) (es : List LogEntry) (acc : ReplayLog)
    → from_entry e.timestamps e.committed [] ≡ some entry
    → e.name ≡ name
    → init_clients (e ∷ es) acc ≡ init_clients es (insert_client name entry acc)
unfolding init_clients
init_clients-cons name entry e es acc built named = rw (built, init_clients, named)

record Merged (acc log r : ReplayLog) : Type 0 where
  found : (n : List ℕ) → find_name n r ≡ or_else (find_name n acc) (find_name n log)
  valid : IsValid r

init_clients-get :
    (log acc : ReplayLog)
    → All IsSortedEntry log
    → IsValid acc
    → (r : ReplayLog) × (init_clients (get_relay_log_content log) acc ≡ some r) × Merged acc log r
unfolding get_relay_log_content
init_clients-get [] acc s v = (
  acc,
  unfold init_clients in refl,
  record { found = λ n. unfold UnorderedMap.find in ground (arith); valid = v },
)
init_clients-get ((name, entry) ∷ log) acc s v =
    let built = from_entry-to_entry name [] entry s.0 (Below-nil timestamp_order entry) in
    let (r, made, merged) =
      init_clients-get log (insert_client name entry acc) s.1
        (insert_client-IsValid name entry acc s.0 v) in
    (
      r,
      init_clients-cons name entry _ _ acc built (name-to_entry name entry) ∙ made,
      record {
        found = λ n.
            merged.found n
            ∙ unfold UnorderedMap.find in ground (arith, find-insert_client n name entry acc);
        valid = merged.valid;
      },
    )

-- A node that takes over the content of a valid log, whatever its own log held, gets a valid log
-- with the same list for every client.
pub init-get_relay_log_content :
    (own log : ReplayLog)
    → IsValid log
    → (r : ReplayLog) × (init_relay_log_content own (get_relay_log_content log) ≡ some r)
      × ((n : List ℕ) → find_name n r ≡ find_name n log)
      × IsValid r
unfolding init_relay_log_content clear_content
init-get_relay_log_content own log v =
    let (r, made, merged) =
      init_clients-get log [] v.sorted (record { distinct = tt; sorted = tt }) in
    (r, made, λ n. unfold UnorderedMap.find in merged.found n, merged.valid)
