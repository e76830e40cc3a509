-- ===== src/Tables/ReplayLog/Admission.antt =====
-- What `addToLog` does on every branch, and to a request that was acknowledged before.
use chained_block_storage.Base.{
  ◌≡◌, refl, ap, subst, ◌∙◌, inl, inr, Bool, true, false, not, Option, none, some, [], ◌∷◌, arith,
  if◌then◌else◌, Option-cases,
}
use chained_block_storage.OrderedMap
use chained_block_storage.OrderedMap.{IsSorted}
use chained_block_storage.OrderedMap.Laws.{find-insert_self, find-insert_ne, insert-IsSorted}
use chained_block_storage.UnorderedMap.Laws.{find-put}
use chained_block_storage.Tables.Request.{
  Timestamp, ClientRequestId, timestamp_lt, timestamp_order, timestamp_lt_irrefl, timestamp_lt-same,
  timestamp_lt_trans,
}
use chained_block_storage.Tables.Identifier.{identifier, Text-discrete}
use chained_block_storage.Tables.ReplayLog.{
  Code, zero_code, minus_one, minus_two, TimestampList, ReplayLog, find_client, put_client,
  add_to_log, ack_log_entry, smaller_than_min,
}
use chained_block_storage.Tables.ReplayLog.Status.{
  IsValid, status, status_in, Updates, put-IsValid, put-Updates, IsSorted-entry,
}
use chained_block_storage.Tables.ReplayLog.Transitions.{Acked, ack_log_entry-Acked}

too_old_in : Option TimestampList → Timestamp → Bool
too_old_in none t = false
too_old_in (some entry) t = smaller_than_min t entry

-- The client has requests in the log, and all of them are newer.
unfoldable pub is_too_old : ReplayLog → ClientRequestId → Bool
unfolding too_old_in
is_too_old log id = too_old_in (find_client id log) id.timestamp

-- After a request is added whose status was `s`, with `old` for `is_too_old`.
abbrev pub Added : ReplayLog → ClientRequestId → Option Bool → Bool → ReplayLog × Code → Type 0
Added log id (some c) old r = (r.1 ≡ minus_one) × Updates log r.0 id (some c) × IsValid r.0
Added log id none true r = r ≡ (log, minus_two)
Added log id none false r = (r.1 ≡ zero_code) × Updates log r.0 id (some false) × IsValid r.0

not_smaller_of_found :
    (t : Timestamp) (c : Bool) (entry : TimestampList)
    → OrderedMap.find timestamp_order t entry ≡ some c
    → smaller_than_min t entry ≡ false
unfolding OrderedMap.find smaller_than_min
not_smaller_of_found t c [] h = refl
not_smaller_of_found t c ((u, b) ∷ entry) h = ground arith

module _ (log : ReplayLog) (id : ClientRequestId) (entry : TimestampList) where
  add_new_eq :
      find_client id log ≡ some entry
      → smaller_than_min id.timestamp entry ≡ false
      → OrderedMap.find timestamp_order id.timestamp entry ≡ none
      → add_to_log log id ≡ (
        put_client id (OrderedMap.insert timestamp_order id.timestamp false entry) log,
        zero_code,
      )
  unfolding add_to_log OrderedMap.is_new
  add_new_eq found young here = ground arith

  add_known_eq :
      (c : Bool)
      → find_client id log ≡ some entry
      → smaller_than_min id.timestamp entry ≡ false
      → OrderedMap.find timestamp_order id.timestamp entry ≡ some c
      → add_to_log log id ≡ (
        put_client id (OrderedMap.insert timestamp_order id.timestamp false entry) log,
        minus_one,
      )
  unfolding add_to_log OrderedMap.is_new
  add_known_eq c found young here = ground arith

  add-Updates :
      (s : Option Bool)
      → IsValid log
      → find_client id log ≡ some entry
      → OrderedMap.find timestamp_order id.timestamp
          (OrderedMap.insert timestamp_order id.timestamp false entry)
        ≡ s
      → let next = put_client id (OrderedMap.insert timestamp_order id.timestamp false entry) log in
        Updates log next id s × IsValid next
  add-Updates s v found here =
      let sorted = IsSorted-entry log id entry v found in
      (
        put-Updates log id (some entry) _ s found here (λ t differs.
            unfold status_in in
            find-insert_ne timestamp_order id.timestamp t false entry sorted differs),
        put-IsValid log id _ v (insert-IsSorted timestamp_order id.timestamp false entry sorted),
      )

  add_found :
      (s : Option Bool) (old : Bool)
      → IsValid log
      → find_client id log ≡ some entry
      → OrderedMap.find timestamp_order id.timestamp entry ≡ s
      → smaller_than_min id.timestamp entry ≡ old
      → Added log id s old (add_to_log log id)
  add_found none true v found here young = unfold add_to_log in ground arith
  add_found none false v found here young = rw (add_new_eq found young here) (
      let (u, w) =
        add-Updates (some false) v found
          (ground (arith, find-insert_self timestamp_order id.timestamp false entry)) in
      (refl, u, w))
  add_found (some c) old v found here young =
      rw (add_known_eq c found (not_smaller_of_found id.timestamp c entry here) here) (
        let (u, w) =
          add-Updates (some c) v found
            (ground (arith, find-insert_self timestamp_order id.timestamp false entry)) in
        (refl, u, w))

add_missing :
    (log : ReplayLog) (id : ClientRequestId)
    → IsValid log
    → find_client id log ≡ none
    → Added log id none false (add_to_log log id)
unfolding OrderedMap.insert
add_missing log id v missing =
    let e : add_to_log log id ≡ (put_client id ((id.timestamp, false) ∷ []) log, zero_code) =
      unfold add_to_log in ground arith in
    rw e (
      refl,
      put-Updates log id none ((id.timestamp, false) ∷ []) (some false) missing
          (unfold OrderedMap.find in ground (arith, timestamp_lt_irrefl id.timestamp))
          (λ t differs.
            unfold OrderedMap.find status_in in ground (arith, timestamp_lt-same t id.timestamp)),
      put-IsValid log id _ v (tt, tt),
    )

-- `addToLog` on a valid log: a request that the log holds gives -1 and keeps its status; one that
-- is older than all its client has there gives -2 and the log stays as it is; any other enters the
-- log as not committed, with 0. Every other request and the validity of the log are kept.
pub add_to_log-Added :
    (log : ReplayLog) (id : ClientRequestId)
    → IsValid log
    → Added log id (status log id) (is_too_old log id) (add_to_log log id)
unfolding status is_too_old
add_to_log-Added log id v = elim (Option-cases (find_client id log)) [
  | inl missing ↦ rw (missing, status_in, too_old_in) (add_missing log id v missing)
  | inr (entry, found) ↦
      rw (found, status_in, too_old_in) (add_found log id entry _ _ v found refl refl)
]

-- Whether the request is the first of two or more in a list.
unfoldable pub is_first_of_several : Timestamp → TimestampList → Bool
is_first_of_several t [] = false
is_first_of_several t (e ∷ []) = false
is_first_of_several t ((u, _) ∷ e ∷ entry) = not (timestamp_lt u t)

too_old_after_erase :
    (t : Timestamp) (c : Bool) (entry : TimestampList)
    → IsSorted timestamp_order entry
    → OrderedMap.find timestamp_order t entry ≡ some c
    → smaller_than_min t (OrderedMap.erase timestamp_order t entry) ≡ is_first_of_several t entry
unfolding OrderedMap.find OrderedMap.erase smaller_than_min is_first_of_several
too_old_after_erase t c [] s h = refl
too_old_after_erase t c ((u, b) ∷ []) s h =
    ground (arith, timestamp_lt_trans t u t, timestamp_lt_irrefl t)
too_old_after_erase t c ((u, b) ∷ (w, d) ∷ entry) s h = ground (
  arith,
  timestamp_lt_trans t u t,
  timestamp_lt_irrefl t,
  timestamp_lt-same t u,
  timestamp_lt_trans u t u,
  timestamp_lt_irrefl u,
)

first_of_several_in : Option TimestampList → Timestamp → Bool
first_of_several_in none t = false
first_of_several_in (some entry) t = is_first_of_several t entry

-- The client has other requests in the log beside this one, and all of them are newer.
unfoldable pub is_oldest_of_several : ReplayLog → ClientRequestId → Bool
unfolding first_of_several_in is_first_of_several
is_oldest_of_several log id = first_of_several_in (find_client id log) id.timestamp

Added-code :
    (log : ReplayLog) (id : ClientRequestId) (old : Bool) (r : ReplayLog × Code)
    → Added log id none old r
    → r.1 ≡ (if old then minus_two else zero_code)
Added-code log id true r h = ap (λ (p : ReplayLog × Code). p.1) h
Added-code log id false r h = h.0

too_old_after_ack :
    (log : ReplayLog) (id : ClientRequestId)
    → IsValid log
    → status log id ≡ some true
    → is_too_old (ack_log_entry log id).0 id ≡ is_oldest_of_several log id
unfolding status is_too_old is_oldest_of_several
too_old_after_ack log id v h = elim (Option-cases (find_client id log)) [
  | inl missing ↦ absurd (ground arith)
  | inr (entry, found) ↦
      let here : OrderedMap.find timestamp_order id.timestamp entry ≡ some true = ground arith in
      let next : TimestampList = OrderedMap.erase timestamp_order id.timestamp entry in
      let e : ack_log_entry log id ≡ (put_client id next log, zero_code) =
        unfold ack_log_entry in ground arith in
      let f : find_client id (put_client id next log) ≡ some next =
        ground (arith, find-put Text-discrete (identifier id) (identifier id) next log) in
      rw (e, f, found, too_old_in, first_of_several_in)
        (too_old_after_erase id.timestamp true entry (IsSorted-entry log id entry v found) here)
]

-- A committed request that was acknowledged, on a valid log, and comes in again is taken for a new
-- one, with 0, unless its client has other requests in the log and all of them are newer: then it
-- gives -2.
pub add_to_log-ack_log_entry :
    (log : ReplayLog) (id : ClientRequestId)
    → IsValid log
    → status log id ≡ some true
    → (add_to_log (ack_log_entry log id).0 id).1
      ≡ (if is_oldest_of_several log id then minus_two else zero_code)
add_to_log-ack_log_entry log id v h =
    let log' = (ack_log_entry log id).0 in
    let (_, gone, valid) =
      subst (λ s. Acked log id s (ack_log_entry log id)) h (ack_log_entry-Acked log id v) in
    let added =
      subst (λ s. Added log' id s (is_too_old log' id) (add_to_log log' id)) gone.here
        (add_to_log-Added log' id valid) in
    Added-code log' id _ _ added
    ∙ ap (λ (b : Bool). if b then minus_two else zero_code) (too_old_after_ack log id v h)
