-- ===== src/Tables/ReplayLog/Status.antt =====
-- What the log says of a request, as a view of the whole log, and what each call does to that view.
use chained_block_storage.Base.{
  ℕ, ◌≡◌, refl, ◌≢◌, ap, sym, Bool, Option, none, some, List, All, arith,
}
use chained_block_storage.OrderedMap
use chained_block_storage.OrderedMap.{OrderedMap, IsSorted}
use chained_block_storage.UnorderedMap
use chained_block_storage.UnorderedMap.{IsDistinct}
use chained_block_storage.UnorderedMap.Laws.{find-put, put-All, put-IsDistinct, All-find}
use chained_block_storage.Tables.Request.{Timestamp, ClientRequestId, timestamp_order}
use chained_block_storage.Tables.Identifier.{identifier, Text-discrete}
use chained_block_storage.Tables.ReplayLog.{TimestampList, ReplayLog, find_client, put_client}

-- Each client stands once, with timestamps that rise.
abbrev pub IsSortedEntry : List ℕ × TimestampList → Type 0
IsSortedEntry e = IsSorted timestamp_order e.1

pub record IsValid (log : ReplayLog) : Type 0 where
  pub distinct : IsDistinct log
  pub sorted : All IsSortedEntry log

-- `none`: the log does not hold the request; `some c`: it does, and `c` says if it is committed.
unfoldable pub status_in : Option TimestampList → Timestamp → Option Bool
status_in none t = none
status_in (some entry) t = OrderedMap.find timestamp_order t entry

unfoldable pub status : ReplayLog → ClientRequestId → Option Bool
unfolding status_in
status log id = status_in (find_client id log) id.timestamp

-- Two requests are one when client and time agree.
pub record SameRequest (a b : ClientRequestId) : Type 0 where
  pub client : identifier a ≡ identifier b
  pub time : a.timestamp ≡ b.timestamp

-- The log after a call says `s` of the request and of every other what it said before.
pub record Updates (log log' : ReplayLog) (id : ClientRequestId) (s : Option Bool) : Type 0 where
  pub here : status log' id ≡ s
  pub others : (j : ClientRequestId) → ¬ SameRequest j id → status log' j ≡ status log j

pub put-IsValid :
    (log : ReplayLog) (id : ClientRequestId) (entry : TimestampList)
    → IsValid log
    → IsSorted timestamp_order entry
    → IsValid (put_client id entry log)
put-IsValid log id entry v s = record {
  distinct = put-IsDistinct Text-discrete (identifier id) entry log v.distinct;
  sorted = put-All Text-discrete IsSortedEntry (identifier id) entry log (λ j. s) v.sorted;
}

-- A new list for one client changes what is said of its requests only.
pub put-Updates :
    (log : ReplayLog) (id : ClientRequestId) (old : Option TimestampList) (entry : TimestampList)
    (s : Option Bool)
    → find_client id log ≡ old
    → OrderedMap.find timestamp_order id.timestamp entry ≡ s
    → ((t : Timestamp)
        → t ≢ id.timestamp
        → OrderedMap.find timestamp_order t entry ≡ status_in old t)
    → Updates log (put_client id entry log) id s
unfolding status
put-Updates log id old entry s found here others = record {
  here = ground (arith, find-put Text-discrete (identifier id) (identifier id) entry log);
  others = λ j differs. elim (Text-discrete (identifier id) (identifier j)) [
    | yes client ↦
        let other : j.timestamp ≢ id.timestamp =
          λ time. differs (record { client = sym client; time = time }) in
        ground (
          arith,
          find-put Text-discrete (identifier j) (identifier id) entry log,
          others j.timestamp other,
          ap (λ name. UnorderedMap.find Text-discrete name log) client,
        )
    | no client ↦ ground (arith, find-put Text-discrete (identifier j) (identifier id) entry log)
  ];
}

pub unchanged :
    (log : ReplayLog) (id : ClientRequestId) {s : Option Bool}
    → status log id ≡ s
    → Updates log log id s
unchanged log id h = record { here = h; others = λ j _. refl }

pub IsSorted-entry :
    (log : ReplayLog) (id : ClientRequestId) (entry : TimestampList)
    → IsValid log
    → find_client id log ≡ some entry
    → IsSorted timestamp_order entry
IsSorted-entry log id entry v found =
    All-find Text-discrete IsSortedEntry (identifier id) entry log v.sorted found
