-- ===== src/Node/Promotion.antt =====
-- A node that has taken writes from upstream becomes the head (src/server_main.cpp,
-- HeadServiceImpl.cpp and NodeListenerImpl.cpp of src/interfaceImpl/serverService).
use chained_block_storage.Base.{
  ℕ, ◌+◌, ◌≤◌, ◌≡◌, refl, ap, sym, subst, ◌∙◌, Bool, false, Option, some, List, [], ◌∷◌, map, All,
  arith, ◌==◌,
}
use chained_block_storage.Protocol.{Status}
use chained_block_storage.Tables.Request.{int_bits}
use chained_block_storage.Tables.PendingQueue
use chained_block_storage.Tables.ReplayLog.{
  ReplayLog, Code, zero_code, minus_one, minus_two, add_to_log,
}
use chained_block_storage.Node.{Storage, Node, looking}
use chained_block_storage.Node.Handlers.{
  WriteRequest, Answer, replies, entry_of, enqueue, write_logged, write, relay_write,
}
use chained_block_storage.Node.Background.{relay_step_at, relay_write_step, take_next}
use chained_block_storage.Node.Steps.{
  Event, client_write, upstream_write, relay_round, ack_round, downstream_ack, log_ack, changed,
  perform, run,
}
use chained_block_storage.Node.System.History.{own_event-current_seq}

-- An event that is no write of a client.
abbrev pub NoClient : Event → Type 0
NoClient (client_write r) = ⊥
NoClient (upstream_write r) = Unit
NoClient (relay_round answer) = Unit
NoClient ack_round = Unit
NoClient (downstream_ack s) = Unit
NoClient (log_ack id) = Unit
NoClient (changed state up down) = Unit

module _ {V : Type 0} (storage : Storage V) (crashes : ℕ → Bool) where
  relayed-current_seq :
      (e : Event) (n : Node V)
      → NoClient e
      → (perform storage crashes e n).current_seq ≡ n.current_seq
  unfolding perform relay_write enqueue
  relayed-current_seq (client_write r) n l = absurd l
  relayed-current_seq (upstream_write r) n l = ground arith
  relayed-current_seq (relay_round answer) n l =
      own_event-current_seq storage crashes (relay_round answer) n tt
  relayed-current_seq ack_round n l = own_event-current_seq storage crashes ack_round n tt
  relayed-current_seq (downstream_ack k) n l =
      own_event-current_seq storage crashes (downstream_ack k) n tt
  relayed-current_seq (log_ack id) n l = refl
  relayed-current_seq (changed state up down) n l = refl

  run-current_seq :
      (es : List Event) (n : Node V)
      → All NoClient es
      → (run storage crashes es n).current_seq ≡ n.current_seq
  unfolding run
  run-current_seq [] n a = refl
  run-current_seq (e ∷ es) n a =
      run-current_seq es (perform storage crashes e n) a.1 ∙ relayed-current_seq e n a.0

  -- The node after a new write comes in to an empty queue.
  abbrev numbered_node : Node V → WriteRequest → ReplayLog → Node V
  numbered_node m r log = record m {
    log = log;
    current_seq = m.current_seq + 1;
    pending = record {
      queue = entry_of r m.current_seq ∷ [];
      seq_num_set = int_bits m.current_seq ∷ [];
    };
  }

  write_logged-new :
      (m : Node V) (r : WriteRequest) (logged : ReplayLog × Code)
      → logged.1 ≡ zero_code
      → m.pending ≡ PendingQueue.empty
      → write_logged m r logged ≡ (numbered_node m r logged.0, replies (some m.current_seq))
  unfolding write_logged enqueue PendingQueue.push_entry PendingQueue.empty entry_of
  write_logged-new m r (log, zero_code) e h = rw h refl
  write_logged-new m r (log, minus_one) e h = absurd (cc)
  write_logged-new m r (log, minus_two) e h = absurd (cc)

  stuck_round :
      (n : Node V) (answer : Status) (e : PendingQueue.Entry) (q : PendingQueue.PendingQueue)
      → n.relay ≡ looking
      → PendingQueue.pop_entry n.pending ≡ some (e, q)
      → (e.seq_num == n.write_seq + 1) ≡ false
      → relay_write_step storage crashes n answer ≡ n
  unfolding relay_write_step relay_step_at take_next
  stuck_round n answer e q l found late =
      ap (relay_step_at storage crashes n answer) l ∙ rw (found, take_next, late) refl

  rounds-stay :
      (answers : List Status) (n : Node V)
      → ((answer : Status) → relay_write_step storage crashes n answer ≡ n)
      → run storage crashes (map relay_round answers) n ≡ n
  unfolding run perform
  rounds-stay [] n stays = refl
  rounds-stay (a ∷ answers) n stays =
      ap (run storage crashes (map relay_round answers)) (stays a) ∙ rounds-stay answers n stays

  -- A node that takes its writes from upstream keeps its next number, so as the head it gives a number
  -- again that it has stored. Take any of the events, which Restore is not among, without a write of
  -- a client, after which the last write has the next number of the node at first or a later one, the
  -- relay looks at the queue, and the queue is empty. Then a write of a client that the replay log
  -- takes as new is answered with that old number, and no round of the relay changes the node any
  -- more, whatever the next node answers, so the rounds never store the write.
  pub run-write :
      (es : List Event) (n : Node V) (r : WriteRequest) (answers : List Status)
      → All NoClient es
      → n.current_seq ≤ (run storage crashes es n).write_seq
      → (run storage crashes es n).relay ≡ looking
      → (run storage crashes es n).pending ≡ PendingQueue.empty
      → (add_to_log (run storage crashes es n).log r.req_id).1 ≡ zero_code
      → let (n', answer) = write (run storage crashes es n) r in
        (answer ≡ replies (some n.current_seq))
        × (run storage crashes (map relay_round answers) n' ≡ n')
  unfolding write PendingQueue.pop_entry entry_of
  run-write es n r answers a old l empty_ new =
      let m = run storage crashes es n in
      let same = run-current_seq es n a in
      let logged = add_to_log m.log r.req_id in
      let done = write_logged-new m r logged new empty_ in
      let late : (m.current_seq == m.write_seq + 1) ≡ false = ground (arith, same, old) in
      let n' = numbered_node m r logged.0 in
      (
        ap (λ (x : Node V × Answer (Option ℕ)). x.1) done ∙ ap (λ k. replies (some k)) same,
        subst (λ (x : Node V). run storage crashes (map relay_round answers) x ≡ x)
            (sym (ap (λ (x : Node V × Answer (Option ℕ)). x.0) done))
            (rounds-stay answers n' (λ answer. stuck_round n' answer _ _ l refl late)),
      )
