-- ===== src/Tables/ReplayLog.antt =====
-- `Tables::ReplayLog` (src/headers/tables.hpp, src/tablesImpl/replayLog.cpp): which requests of
-- each client have entered the chain, and whether they are committed. Each call runs under its
-- locks and so as one step; the ints 0, -1 and -2 that it returns are the constructors of `Code`.
pub mod Status
pub mod Transitions
pub mod Admission
pub mod Cleaning
pub mod Transfer
use chained_block_storage.Base.{
  ℕ, ◌-◌, ◌≡◌, Bool, true, false, ◌&&◌, Option, none, some, List, [], ◌∷◌, ltb, if◌then◌else◌,
}
use chained_block_storage.OrderedMap
use chained_block_storage.OrderedMap.{OrderedMap}
use chained_block_storage.UnorderedMap
use chained_block_storage.UnorderedMap.{UnorderedMap}
use chained_block_storage.Tables.Request.{Timestamp, ClientRequestId, timestamp_lt, timestamp_order}
use chained_block_storage.Tables.Identifier.{identifier, Text-discrete}

pub data Code : Type 0 where
  zero_code minus_one minus_two : Code

-- `replayLogEntry::timestamp_list`: true marks a committed request.
abbrev pub TimestampList : Type 0
TimestampList = OrderedMap Timestamp Bool

-- `client_list`, each entry of which owns its timestamps.
abbrev pub ReplayLog : Type 0
ReplayLog = UnorderedMap (List ℕ) TimestampList

abbrev pub find_client : ClientRequestId → ReplayLog → Option TimestampList
find_client id log = UnorderedMap.find Text-discrete (identifier id) log

abbrev pub put_client : ClientRequestId → TimestampList → ReplayLog → ReplayLog
put_client id entry log = UnorderedMap.put Text-discrete (identifier id) entry log

-- Whether the request is older than the oldest timestamp in the list, if there is one.
unfoldable pub smaller_than_min : Timestamp → TimestampList → Bool
smaller_than_min t [] = false
smaller_than_min t ((u, _) ∷ _) = timestamp_lt t u

add_to_entry : ReplayLog → ClientRequestId → TimestampList → ReplayLog × Code
add_to_entry log id entry = if smaller_than_min id.timestamp entry then (log, minus_two) else (
  put_client id (OrderedMap.insert timestamp_order id.timestamp false entry) log,
  if OrderedMap.is_new timestamp_order id.timestamp entry then zero_code else minus_one,
)

unfoldable pub add_to_log : ReplayLog → ClientRequestId → ReplayLog × Code
unfolding add_to_entry
add_to_log log id = elim (find_client id log) [
  | none ↦ (put_client id (OrderedMap.insert timestamp_order id.timestamp false []) log, zero_code)
  | some entry ↦ add_to_entry log id entry
]

ack_in_entry : ReplayLog → ClientRequestId → TimestampList → ReplayLog × Code
ack_in_entry log id entry = elim (OrderedMap.find timestamp_order id.timestamp entry) [
  | none ↦ (log, minus_one)
  | some false ↦ (log, minus_two)
  | some true ↦ (put_client id (OrderedMap.erase timestamp_order id.timestamp entry) log, zero_code)
]

unfoldable pub ack_log_entry : ReplayLog → ClientRequestId → ReplayLog × Code
unfolding ack_in_entry
ack_log_entry log id = elim (find_client id log) [
  | none ↦ (log, minus_one)
  | some entry ↦ ack_in_entry log id entry
]

commit_in_entry : ReplayLog → ClientRequestId → TimestampList → ReplayLog × Code
commit_in_entry log id entry = elim (OrderedMap.find timestamp_order id.timestamp entry) [
  | none ↦ (log, minus_one)
  | some true ↦ (log, minus_two)
  | some false ↦
      (put_client id (OrderedMap.assign timestamp_order id.timestamp true entry) log, zero_code)
]

unfoldable pub commit_log_entry : ReplayLog → ClientRequestId → ReplayLog × Code
unfolding commit_in_entry
commit_log_entry log id = elim (find_client id log) [
  | none ↦ (log, minus_one)
  | some entry ↦ commit_in_entry log id entry
]

-- Whether the newest timestamp of a client lies more than `age` seconds before `now`.
unfoldable pub is_outdated : ℕ → ℕ → TimestampList → Bool
is_outdated age now [] = false
is_outdated age now ((t, _) ∷ []) = ltb t.seconds now && ltb age (now - t.seconds)
is_outdated age now (_ ∷ e ∷ rest) = is_outdated age now (e ∷ rest)

-- The first loop of `cleanOldLogEntry`: the clients to remove.
unfoldable pub to_remove : ℕ → ℕ → ReplayLog → List (List ℕ)
to_remove age now [] = []
to_remove age now ((name, entry) ∷ log) =
    let rest = to_remove age now log in if is_outdated age now entry then name ∷ rest else rest

-- The second loop: it skips a name that is no longer there.
unfoldable pub remove_clients : List (List ℕ) → ReplayLog → ReplayLog
remove_clients [] log = log
remove_clients (name ∷ names) log = remove_clients names (UnorderedMap.erase Text-discrete name log)

unfoldable pub clean_old_log_entry : ℕ → ℕ → ReplayLog → ReplayLog
unfolding to_remove remove_clients
clean_old_log_entry age now log = remove_clients (to_remove age now log) log

-- `ReplayLogEntry` and `UpdateReplayLogRequest` of protos/server.proto.
pub record LogEntry : Type 0 where
  pub name : List ℕ
  pub timestamps : List Timestamp
  pub committed : List Bool

unfoldable pub to_entry : List ℕ → TimestampList → LogEntry
to_entry name [] = record { name = name; timestamps = []; committed = [] }
to_entry name ((t, c) ∷ entry) =
    let rest = to_entry name entry in
    record rest { timestamps = t ∷ rest.timestamps; committed = c ∷ rest.committed }

unfoldable pub get_relay_log_content : ReplayLog → List LogEntry
unfolding to_entry
get_relay_log_content [] = []
get_relay_log_content ((name, entry) ∷ log) = to_entry name entry ∷ get_relay_log_content log

-- The inner loop of `initRelayLogContent`, from the entry that is built so far. `none` is a read
-- of `committed(j)` past the end.
unfoldable pub from_entry : List Timestamp → List Bool → TimestampList → Option TimestampList
from_entry [] cs entry = some entry
from_entry (t ∷ ts) [] entry = none
from_entry (t ∷ ts) (c ∷ cs) entry = from_entry ts cs (OrderedMap.insert timestamp_order t c entry)

-- `client_list.insert`: a name that is there already keeps its entry.
insert_client : List ℕ → TimestampList → ReplayLog → ReplayLog
insert_client name entry log = elim (UnorderedMap.find Text-discrete name log) [
  | none ↦ UnorderedMap.put Text-discrete name entry log
  | some _ ↦ log
]

-- The outer loop of `initRelayLogContent`.
unfoldable pub init_clients : List LogEntry → ReplayLog → Option ReplayLog
unfolding from_entry insert_client
init_clients [] log = some log
init_clients (e ∷ es) log = elim (from_entry e.timestamps e.committed []) [
  | none ↦ none
  | some entry ↦ init_clients es (insert_client e.name entry log)
]

unfoldable pub clear_content : ReplayLog → ReplayLog
clear_content log = []

unfoldable pub init_relay_log_content : ReplayLog → List LogEntry → Option ReplayLog
unfolding init_clients clear_content
init_relay_log_content log content = init_clients content (clear_content log)
