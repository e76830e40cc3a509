-- ===== src/Tables/ReplayLog/Transitions.antt =====
-- What a commit and an acknowledgement do, on every branch, in terms of the status of the request.
use chained_block_storage.Base.{
  ◌≡◌, refl, inl, inr, Bool, true, false, Option, none, some, arith, Option-cases,
}
use chained_block_storage.OrderedMap
use chained_block_storage.OrderedMap.Laws.{
  find-assign_self, find-assign_ne, find-erase_self, find-erase_ne, assign-IsSorted, erase-IsSorted,
}
use chained_block_storage.Tables.Request.{ClientRequestId, timestamp_order}
use chained_block_storage.Tables.ReplayLog.{
  Code, zero_code, minus_one, minus_two, TimestampList, ReplayLog, find_client, put_client,
  ack_log_entry, commit_log_entry,
}
use chained_block_storage.Tables.ReplayLog.Status.{
  IsValid, status, status_in, Updates, put-IsValid, put-Updates, IsSorted-entry,
}

-- After a commit of a request whose status was `s`.
abbrev pub Committed : ReplayLog → ClientRequestId → Option Bool → ReplayLog × Code → Type 0
Committed log id none r = r ≡ (log, minus_one)
Committed log id (some true) r = r ≡ (log, minus_two)
Committed log id (some false) r = (r.1 ≡ zero_code) × Updates log r.0 id (some true) × IsValid r.0

commit_found :
    (log : ReplayLog) (id : ClientRequestId) (entry : TimestampList) (s : Option Bool)
    → IsValid log
    → find_client id log ≡ some entry
    → OrderedMap.find timestamp_order id.timestamp entry ≡ s
    → Committed log id s (commit_log_entry log id)
unfolding commit_log_entry
commit_found log id entry none v found here = ground arith
commit_found log id entry (some true) v found here = ground arith
commit_found log id entry (some false) v found here =
    let next : TimestampList = OrderedMap.assign timestamp_order id.timestamp true entry in
    let e : commit_log_entry log id ≡ (put_client id next log, zero_code) = ground arith in
    rw e (
      refl,
      put-Updates log id (some entry) next (some true) found
          (find-assign_self timestamp_order id.timestamp true false entry here)
          (λ t differs.
            unfold status_in in find-assign_ne timestamp_order id.timestamp t true entry differs),
      put-IsValid log id next v (
          assign-IsSorted timestamp_order id.timestamp true entry
            (IsSorted-entry log id entry v found)),
    )

commit_missing :
    (log : ReplayLog) (id : ClientRequestId)
    → find_client id log ≡ none
    → commit_log_entry log id ≡ (log, minus_one)
unfolding commit_log_entry
commit_missing log id missing = ground arith

-- `commitLogEntry` on a valid log: a request that the log lacks gives -1 and one that is committed
-- gives -2, and the log stays as it is; one that is not committed becomes so, with 0, and every
-- other request and the validity of the log are kept.
pub commit_log_entry-Committed :
    (log : ReplayLog) (id : ClientRequestId)
    → IsValid log
    → Committed log id (status log id) (commit_log_entry log id)
unfolding status
commit_log_entry-Committed log id v = elim (Option-cases (find_client id log)) [
  | inl missing ↦ rw (missing, status_in) (commit_missing log id missing)
  | inr (entry, found) ↦ rw (found, status_in) (commit_found log id entry _ v found refl)
]

-- After an acknowledgement of a request whose status was `s`.
abbrev pub Acked : ReplayLog → ClientRequestId → Option Bool → ReplayLog × Code → Type 0
Acked log id none r = r ≡ (log, minus_one)
Acked log id (some false) r = r ≡ (log, minus_two)
Acked log id (some true) r = (r.1 ≡ zero_code) × Updates log r.0 id none × IsValid r.0

ack_found :
    (log : ReplayLog) (id : ClientRequestId) (entry : TimestampList) (s : Option Bool)
    → IsValid log
    → find_client id log ≡ some entry
    → OrderedMap.find timestamp_order id.timestamp entry ≡ s
    → Acked log id s (ack_log_entry log id)
unfolding ack_log_entry
ack_found log id entry none v found here = ground arith
ack_found log id entry (some false) v found here = ground arith
ack_found log id entry (some true) v found here =
    let next : TimestampList = OrderedMap.erase timestamp_order id.timestamp entry in
    let e : ack_log_entry log id ≡ (put_client id next log, zero_code) = ground arith in
    let sorted = IsSorted-entry log id entry v found in
    rw e (
      refl,
      put-Updates log id (some entry) next none found
          (find-erase_self timestamp_order id.timestamp entry sorted)
          (λ t differs.
            unfold status_in in find-erase_ne timestamp_order id.timestamp t entry sorted differs),
      put-IsValid log id next v (erase-IsSorted timestamp_order id.timestamp entry sorted),
    )

ack_missing :
    (log : ReplayLog) (id : ClientRequestId)
    → find_client id log ≡ none
    → ack_log_entry log id ≡ (log, minus_one)
unfolding ack_log_entry
ack_missing log id missing = ground arith

-- `ackLogEntry` on a valid log: a request that the log lacks gives -1 and one that is not yet
-- committed gives -2, and the log stays as it is; a committed one leaves the log, with 0, and every
-- other request and the validity of the log are kept.
pub ack_log_entry-Acked :
    (log : ReplayLog) (id : ClientRequestId)
    → IsValid log
    → Acked log id (status log id) (ack_log_entry log id)
unfolding status
ack_log_entry-Acked log id v = elim (Option-cases (find_client id log)) [
  | inl missing ↦ rw (missing, status_in) (ack_missing log id missing)
  | inr (entry, found) ↦ rw (found, status_in) (ack_found log id entry _ v found refl)
]
