-- ===== src/Tests/Client.antt =====
-- The client library (src/client_api.cpp) at fixed inputs.
use chained_block_storage.Base.{some, ℕ, ◌≡◌, refl, true, false, List, [], ◌∷◌, All}
use chained_block_storage.OrderedMap
use chained_block_storage.UnorderedMap
use chained_block_storage.Protocol.{head_state, ServerIp, Status, ok, unavailable, is_ok}
use chained_block_storage.Tables.Int.{pos}
use chained_block_storage.Tables.PendingQueue
use chained_block_storage.Tables.Request.{Timestamp, timestamp_order}
use chained_block_storage.Tables.ReplayLog.{add_to_log}
use chained_block_storage.Tables.ReplayLog.Status.{IsValid}
use chained_block_storage.Node.{Node, Peer, looking}
use chained_block_storage.Node.Handlers as Handlers
use chained_block_storage.Node.Handlers.{WriteRequest, c_string}
use chained_block_storage.Node.Numbering.{Unnumbered, write_all}
use chained_block_storage.Client.{
  Client, PendingWriteEntry, ConfigAnswer, CallRound, answers, fails, returns, waits, Time,
  timestamp_of, request_of, write, pop_pending_write, peek_pending_write, retry_top_pending_write,
}
use chained_block_storage.Client.Retries.{
  pending_at, write-returns, write-throws, retry_top-Unnumbered,
}

abbrev address : ServerIp
address = record { ip = b'h' ∷ []; port = pos 18001 }

abbrev idle_client : Client
idle_client = record {
  client_ip = b'a' ∷ [];
  client_pid = 42;
  head = address;
  tail = address;
  pending_writes = [];
  locked = false;
}

abbrev entry : PendingWriteEntry
entry = record { buff = b'x' ∷ 0 ∷ []; offset = 4096 }

abbrev config : Status → ConfigAnswer
config s = record { status = s; head_addr = address; tail_addr = address }

abbrev second : ℕ → Time
second n = record { tv_sec = n; tv_usec = 5 }

abbrev one_failure : List (Time × CallRound Unit)
one_failure = (second 10, fails (config ok)) ∷ (second 11, answers tt) ∷ []

write-returns_example :
    let result = write idle_client [] entry one_failure in
    (s : Timestamp) × (result.2 ≡ returns s)
    × (pending_at s result.1 ≡ some entry)
    × (result.1.pending_writes ≡ OrderedMap.insert timestamp_order s entry [])
    × (result.1.locked ≡ false)
unfolding is_ok OrderedMap.find
write-returns_example =
    write-returns idle_client [] entry one_failure refl (refl, tt) (refl, (refl, tt))

-- The master is not reached after the first failure.
abbrev master_down : List (Time × CallRound Unit)
master_down = (second 10, fails (config unavailable)) ∷ []

write-throws_example :
    let d = (write idle_client [] entry master_down).1 in
    ((b : List ℕ) (f : PendingWriteEntry) (rs : List (Time × CallRound Unit))
      → write d b f rs ≡ ([], d, waits))
    × (pop_pending_write d ≡ (d, waits))
    × (peek_pending_write d ≡ (d, waits))
unfolding write is_ok
write-throws_example = write-throws idle_client [] entry master_down refl

abbrev peer : Peer
peer = record { addr = address; has_stub = true }

abbrev new_head : Node Unit
new_head = record {
  state = head_state;
  upstream = peer;
  downstream = peer;
  current_seq = 1;
  write_seq = 0;
  commit_seq = pos 0;
  pending = PendingQueue.empty;
  sent = [];
  log = [];
  volume = tt;
  relay = looking;
  mode_locked = false;
}

new_head-IsValid : IsValid new_head.log
new_head-IsValid = record { distinct = tt; sorted = tt }

abbrev pending_client : Client
pending_client = record idle_client { pending_writes = (timestamp_of (second 10), entry) ∷ [] }

abbrev first_request : WriteRequest
first_request = request_of pending_client [] entry (timestamp_of (second 10))

abbrev other_request : WriteRequest
other_request = request_of pending_client [] entry (timestamp_of (second 11))

retry_top-Unnumbered_example :
    let m = write_all (other_request ∷ []) (Handlers.write new_head first_request).0 in
    All
      (λ r. Unnumbered m (Handlers.write m r))
      (retry_top_pending_write pending_client [] (fails (config ok) ∷ answers tt ∷ [])).0
unfolding Handlers.write add_to_log UnorderedMap.find PendingQueue.empty
retry_top-Unnumbered_example =
    retry_top-Unnumbered new_head pending_client [] (timestamp_of (second 10)) entry []
      (fails (config ok) ∷ answers tt ∷ []) (other_request ∷ []) 1 refl new_head-IsValid refl
