-- ===== src/Tests/Tables.antt =====
-- The tables (src/tablesImpl) at fixed inputs.
use mathlib.Core.List.{Perm}
use native.Mathlib.Decide.{ℕ_discrete}
use chained_block_storage.Base.{
  ℕ, ◌≡◌, refl, ◌↔◌, true, false, some, List, [], ◌∷◌, ◌^◌, ◌+◌, arith, map,
}
use chained_block_storage.OrderedMap
use chained_block_storage.UnorderedMap
use chained_block_storage.Tables.Request.{Timestamp, ClientRequestId, timestamp_lt, ok}
use chained_block_storage.Tables.Identifier.{identifier, Text-discrete, identifier-eq_iff}
use chained_block_storage.Tables.Int.{pos, ltb_ℤ}
use chained_block_storage.Tables.PendingQueue
use chained_block_storage.Tables.PendingQueue.Drain.{push_all, drain, IsRising, drain-push_all}
use chained_block_storage.Tables.SentList
use chained_block_storage.Tables.SentList.{SentEntry, SentList, is_zero}
use chained_block_storage.Tables.SentList.Laws.{
  push_entry-lookup, pop_entry-lookup, get_sent_list_range-lookup, Pushed, Popped, Ranged, lookup,
  IsOrdered,
}
use chained_block_storage.Tables.ReplayLog.{
  ReplayLog, zero_code, find_client, add_to_log, ack_log_entry, commit_log_entry,
  clean_old_log_entry, get_relay_log_content, init_relay_log_content,
}
use chained_block_storage.Tables.ReplayLog.Status.{IsValid, status}
use chained_block_storage.Tables.ReplayLog.Transitions.{
  Committed, Acked, commit_log_entry-Committed, ack_log_entry-Acked,
}
use chained_block_storage.Tables.ReplayLog.Admission.{
  Added, is_too_old, is_oldest_of_several, add_to_log-Added, add_to_log-ack_log_entry,
}
use chained_block_storage.Tables.ReplayLog.Cleaning.{kept_in, find_client-clean_old_log_entry}
use chained_block_storage.Tables.ReplayLog.Transfer.{find_name, init-get_relay_log_content}

abbrev at_second : ℕ → Timestamp
at_second s = record { seconds = s; nanos = 0 }

abbrev request_at : ℕ → ClientRequestId
request_at s = record { ip = b'a' ∷ []; pid = 42; timestamp = at_second s }

abbrev client_name : List ℕ
client_name = b'a' ∷ b':' ∷ b'4' ∷ b'2' ∷ []

identifier_run : identifier (request_at 10) ≡ client_name
unfolding identifier
identifier_run = refl

-- The request of second 10 is committed, that of second 20 is not.
abbrev two_requests : ReplayLog
two_requests = (client_name, (at_second 10, true) ∷ (at_second 20, false) ∷ []) ∷ []

abbrev one_request : ReplayLog
one_request = (client_name, (at_second 10, true) ∷ []) ∷ []

two_requests-IsValid : IsValid two_requests
unfolding timestamp_lt
two_requests-IsValid = record { distinct = (tt, tt); sorted = (((refl, tt), (tt, tt)), tt) }

one_request-IsValid : IsValid one_request
one_request-IsValid = record { distinct = (tt, tt); sorted = ((tt, tt), tt) }

commit_run : (commit_log_entry two_requests (request_at 20)).1 ≡ zero_code
unfolding commit_log_entry identifier timestamp_lt OrderedMap.find UnorderedMap.find Text-discrete
    ℕ_discrete
commit_run = refl

commit_log_entry-Committed_example :
    Committed two_requests
      (request_at 20)
      (status two_requests (request_at 20))
      (commit_log_entry two_requests (request_at 20))
commit_log_entry-Committed_example =
    commit_log_entry-Committed two_requests (request_at 20) two_requests-IsValid

ack_log_entry-Acked_example :
    Acked two_requests
      (request_at 10)
      (status two_requests (request_at 10))
      (ack_log_entry two_requests (request_at 10))
ack_log_entry-Acked_example = ack_log_entry-Acked two_requests (request_at 10) two_requests-IsValid

add_to_log-Added_example :
    Added two_requests
      (request_at 5)
      (status two_requests (request_at 5))
      (is_too_old two_requests (request_at 5))
      (add_to_log two_requests (request_at 5))
add_to_log-Added_example = add_to_log-Added two_requests (request_at 5) two_requests-IsValid

-- The only request of a client is acknowledged, comes in again and is taken for a new one.
add_to_log-ack_log_entry_example :
    (add_to_log (ack_log_entry one_request (request_at 10)).0 (request_at 10)).1 ≡ zero_code
unfolding is_oldest_of_several status identifier timestamp_lt OrderedMap.find UnorderedMap.find
    Text-discrete ℕ_discrete
add_to_log-ack_log_entry_example =
    add_to_log-ack_log_entry one_request (request_at 10) one_request-IsValid refl

find_client-clean_old_log_entry_example :
    (find_client (request_at 10) (clean_old_log_entry 5 30 two_requests)
      ≡ kept_in 5 30 (find_client (request_at 10) two_requests))
    × IsValid (clean_old_log_entry 5 30 two_requests)
find_client-clean_old_log_entry_example =
    find_client-clean_old_log_entry 5 30 (request_at 10) two_requests two_requests-IsValid

init-get_relay_log_content_example :
    (r : ReplayLog) × (init_relay_log_content one_request (get_relay_log_content two_requests)
      ≡ some r)
    × ((n : List ℕ) → find_name n r ≡ find_name n two_requests)
    × IsValid r
init-get_relay_log_content_example =
    init-get_relay_log_content one_request two_requests two_requests-IsValid

identifier-eq_iff_example :
    (identifier (request_at 10) ≡ identifier (request_at 20))
    ↔ (((request_at 10).ip ≡ (request_at 20).ip) × ((request_at 10).pid ≡ (request_at 20).pid))
identifier-eq_iff_example = identifier-eq_iff (request_at 10) (request_at 20)

abbrev waiting : ℕ → PendingQueue.Entry
waiting n = record { seq_num = n; volume_offset = 4096; bytes = b'x' ∷ []; req_id = request_at n }

abbrev numbers : List PendingQueue.Entry → List ℕ
numbers = map (λ e. e.seq_num)

abbrev filled : PendingQueue.PendingQueue
filled = record { queue = waiting 3 ∷ waiting 8 ∷ []; seq_num_set = 3 ∷ 8 ∷ [] }

-- The later write came in first.
filled_run : push_all PendingQueue.empty (waiting 8 ∷ waiting 3 ∷ []) ≡ ok filled
unfolding push_all PendingQueue.push_entry PendingQueue.empty
filled_run = refl

drain-push_all_example :
    Perm (waiting 8 ∷ waiting 3 ∷ []) (drain (PendingQueue.get_queue_size filled) filled)
    × IsRising (drain (PendingQueue.get_queue_size filled) filled)
drain-push_all_example = drain-push_all (waiting 8 ∷ waiting 3 ∷ []) filled filled_run

abbrev one_waits : PendingQueue.PendingQueue
one_waits = record { queue = waiting 3 ∷ []; seq_num_set = 3 ∷ [] }

one_waits-IsValid : PendingQueue.Validity.IsValid one_waits
one_waits-IsValid = record {
  ordered = (tt, tt);
  agrees = λ k. refl;
  distinct = λ k. unfold PendingQueue.Count.count in ground arith;
}

-- A sequence number with the low bits of one that waits is refused.
push_entry-Pushed_example :
    PendingQueue.Validity.Pushed one_waits
      (waiting (2 ^ 32 + 3))
      (PendingQueue.push_entry one_waits (waiting (2 ^ 32 + 3)))
push_entry-Pushed_example =
    PendingQueue.Validity.push_entry-Pushed one_waits (waiting (2 ^ 32 + 3)) one_waits-IsValid

pop_entry-Popped_example : PendingQueue.Validity.Popped one_waits (PendingQueue.pop_entry one_waits)
pop_entry-Popped_example = PendingQueue.Validity.pop_entry-Popped one_waits one_waits-IsValid

abbrev sent_at : ℕ → SentEntry
sent_at n = record { req_id = request_at n; volume_offset = 4096 }

abbrev sent : SentList
sent = (pos 4, sent_at 4) ∷ (pos 6, sent_at 6) ∷ []

sent-IsOrdered : IsOrdered sent
unfolding ltb_ℤ
sent-IsOrdered = ((refl, tt), (tt, tt))

push_entry-lookup_example :
    Pushed sent
      (pos 5)
      (sent_at 5)
      (lookup (pos 5) sent)
      (SentList.push_entry sent (pos 5) (sent_at 5))
push_entry-lookup_example = push_entry-lookup sent (pos 5) (sent_at 5) sent-IsOrdered

pop_entry-lookup_example :
    Popped sent (pos 4) (lookup (pos 4) sent) (SentList.pop_entry sent (pos 4))
pop_entry-lookup_example = pop_entry-lookup sent (pos 4) sent-IsOrdered

get_sent_list_range-lookup_example :
    Ranged sent
      (pos 6)
      (is_zero (pos 6))
      (lookup (pos 6) sent)
      (SentList.get_sent_list_range sent (pos 6))
get_sent_list_range-lookup_example = get_sent_list_range-lookup sent (pos 6) sent-IsOrdered
