-- ===== src/Node/Handlers.antt =====
-- The calls that clients and other nodes make to a node: HeadServiceImpl.cpp, NodeListenerImpl.cpp
-- and TailServiceImpl.cpp of src/interfaceImpl/serverService.
use chained_block_storage.Base.{
  ℕ, ◌+◌, ltb, Bool, true, false, Option, none, some, List, [], ◌∷◌, ◌==◌, take, if◌then◌else◌,
}
use chained_block_storage.Protocol.{State, Status, is_ok}
use chained_block_storage.Tables.Request.{ClientRequestId, Result, ok, throws, Exception}
use chained_block_storage.Tables.Int.{ℤ, pos, to_int}
use chained_block_storage.Tables.PendingQueue
use chained_block_storage.Tables.SentList
use chained_block_storage.Tables.SentList.{SentEntry, SentList}
use chained_block_storage.Tables.ReplayLog.{
  ReplayLog, LogEntry, Code, zero_code, minus_one, minus_two, add_to_log, ack_log_entry,
  commit_log_entry, init_relay_log_content,
}
use chained_block_storage.Node.{Storage, Node, add_one, as_uint64}

-- `WriteRequest`.
pub record WriteRequest : Type 0 where
  pub bytes : List ℕ
  pub offset : ℕ
  pub req_id : ClientRequestId

-- `RelayWriteRequest`.
pub record RelayWriteRequest : Type 0 where
  pub write : WriteRequest
  pub seq_num : ℕ

-- `RestoreEntry`.
pub record RestoreEntry : Type 0 where
  pub bytes : List ℕ
  pub offset : ℕ
  pub seq_num : ℕ

-- How a handler ends: it replies, an exception leaves it, or it still waits.
pub data Answer (A : Type 0) : Type 0 where
  replies : A → Answer A
  raises : Exception → Answer A
  waits : Answer A

-- The entry that `Write` and `RelayWrite` put into the queue; a block has 4096 bytes.
unfoldable pub entry_of : WriteRequest → ℕ → PendingQueue.Entry
entry_of r s = record {
  seq_num = s;
  volume_offset = r.offset;
  bytes = take 4096 r.bytes;
  req_id = r.req_id;
}

-- A loop that repeats a call to the next node upstream while the state asks for it: each round
-- reads the state and, where it calls, takes an answer. True if the loop has ended.
unfoldable pub forwarded : (State → Bool) → List (State × Status) → Bool
forwarded needed [] = false
forwarded needed ((s, answer) ∷ rest) =
    let later = forwarded needed rest in
    if needed s then (if is_ok answer then true else later) else true

-- A buffer that is read as a C string: the bytes up to the first zero.
unfoldable pub c_string : List ℕ → List ℕ
c_string [] = []
c_string (b ∷ bs) = let rest = c_string bs in if b == 0 then [] else b ∷ rest

module _ {V : Type 0} where
  -- `pendingQueue.pushEntry(entry)`, which may throw, and the reply after it.
  unfoldable pub enqueue : {A : Type 0} → Node V → PendingQueue.Entry → A → Node V × Answer A
  unfolding PendingQueue.push_entry
  enqueue n e reply = elim (PendingQueue.push_entry n.pending e) [
    | ok q ↦ (record n { pending = q }, replies reply)
    | throws x ↦ (n, raises x)
  ]

  -- The rest of `Write` after the call of `addToLog`, by the log and the code that it gives.
  unfoldable pub write_logged :
      Node V → WriteRequest → ReplayLog × Code → Node V × Answer (Option ℕ)
  unfolding enqueue entry_of
  write_logged n r (log, zero_code) =
      enqueue (record n { log = log; current_seq = n.current_seq + 1 }) (entry_of r n.current_seq)
        (some n.current_seq)
  write_logged n r (log, minus_one) = (record n { log = log }, replies none)
  write_logged n r (log, minus_two) = (record n { log = log }, replies none)

  -- `HeadService::Write`, whose reply has a sequence number if the request was new.
  unfoldable pub write : Node V → WriteRequest → Node V × Answer (Option ℕ)
  unfolding write_logged
  write n r = write_logged n r (add_to_log n.log r.req_id)

  -- `NodeListener::RelayWrite`.
  unfoldable pub relay_write : Node V → RelayWriteRequest → Node V × Answer Unit
  unfolding add_to_log enqueue entry_of
  relay_write n r =
      let (log, code) = add_to_log n.log r.write.req_id in
      elim code [
        | zero_code ↦ enqueue (record n { log = log }) (entry_of r.write r.seq_num) tt
        | minus_one ↦ (record n { log = log }, replies tt)
        | minus_two ↦ (record n { log = log }, replies tt)
      ]

  -- `NodeListener::AckReplayLog`, before it is passed on upstream while `is_front` is false.
  unfoldable pub ack_replay_log : Node V → ClientRequestId → Node V
  unfolding ack_log_entry
  ack_replay_log n id = record n { log = (ack_log_entry n.log id).0 }

  -- `TailService::WriteAck`, before it is passed on upstream: whether the request was committed.
  unfoldable pub write_ack : Node V → ClientRequestId → Node V × Bool
  unfolding ack_log_entry
  write_ack n id =
      let (log, code) = ack_log_entry n.log id in
      (
        record n { log = log },
        elim code [ zero_code ↦ true | minus_one ↦ false | minus_two ↦ false ],
      )

  -- `NodeListener::UpdateReplayLog`; `none` is a message with too few marks.
  unfoldable pub update_replay_log : Node V → List LogEntry → Option (Node V)
  unfolding init_relay_log_content
  update_replay_log n content = elim (init_relay_log_content n.log content) [
    | none ↦ none
    | some log ↦ some (record n { log = log })
  ]

  module _ (storage : Storage V) where
    -- The commit of the write with number `s`, as `RelayWriteAck` and the background loop do it;
    -- `key` is the number as an `int`.
    unfoldable pub commit_sent : Node V → ℤ → ℤ → ℤ → Result (Node V)
    unfolding SentList.pop_entry commit_log_entry
    commit_sent n key s next = elim (SentList.pop_entry n.sent key) [
      | throws x ↦ throws x
      | ok (entry, sent) ↦ ok (record n {
        sent = sent;
        volume = storage.commit s entry.volume_offset n.volume;
        log = (commit_log_entry n.log entry.req_id).0;
        commit_seq = next;
      })
    ]

    -- `NodeListener::RelayWriteAck`, before it is passed on upstream while `is_front` is false.
    unfoldable pub relay_write_ack : Node V → ℕ → Node V × Answer Unit
    unfolding commit_sent add_one as_uint64
    relay_write_ack n s =
        let done : Node V × Answer Unit = elim (commit_sent n (to_int s) (pos s) (to_int s)) [
          | throws x ↦ (n, raises x)
          | ok n' ↦ (n', replies tt)
        ] in
        if as_uint64 (add_one n.commit_seq) == s then done else (n, waits)

    -- The loop of `Restore`, with the largest number so far.
    unfoldable pub restore_entries : List RestoreEntry → ℕ → V → ℕ × V
    restore_entries [] max_seq v = (max_seq, v)
    restore_entries (e ∷ es) max_seq v =
        restore_entries es (if ltb max_seq e.seq_num then e.seq_num else max_seq)
          (storage.commit (pos e.seq_num) e.offset (storage.write e.bytes e.offset e.seq_num v))

    -- `NodeListener::Restore`.
    unfoldable pub restore : Node V → List RestoreEntry → Node V
    unfolding restore_entries
    restore n es =
        let (max_seq, v) = restore_entries es (storage.get_sequence_number n.volume) n.volume in
        record n {
          volume = v;
          write_seq = max_seq;
          commit_seq = pos max_seq;
          current_seq = max_seq + 1;
        }

    -- `TailService::Read`, whose reply takes the block as a C string.
    unfoldable pub read : Node V → ℕ → List ℕ
    unfolding c_string
    read n offset = c_string (storage.read offset n.volume)
