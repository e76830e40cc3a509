-- ===== src/Node/Served.antt =====
-- A single server works off the writes of its clients (HeadServiceImpl.cpp of
-- src/interfaceImpl/serverService, and the loops of src/server_main.cpp).
use chained_block_storage.Base.{
  ℕ, ◌+◌, ◌^◌, ◌≤◌, ◌<◌, ◌≡◌, refl, ap, sym, subst, ◌∙◌, ◌⊎◌, inl, inr, Bool, false, Option, none,
  some, List, [], ◌∷◌, ◌++◌, length, map, All-each, arith, ltb,
}
use chained_block_storage.Protocol.{Status}
use chained_block_storage.Tables.Request.{ok, int_bits}
use chained_block_storage.Tables.Int.{pos}
use chained_block_storage.Tables.PendingQueue
use chained_block_storage.Tables.PendingQueue.Count.{count, keys}
use chained_block_storage.Tables.PendingQueue.Validity.{IsValid, push_entry-Pushed}
use chained_block_storage.Tables.ReplayLog.{
  ReplayLog, Code, zero_code, minus_one, minus_two, add_to_log,
}
use chained_block_storage.Node.{Storage, Node}
use chained_block_storage.Node.Handlers.{
  WriteRequest, Answer, replies, entry_of, enqueue, write_logged, write,
}
use chained_block_storage.Node.Steps.{run, wrote, apply}
use chained_block_storage.Node.Order.{write-Same}
use chained_block_storage.Node.Numbering.{write_all}
use chained_block_storage.Node.Progress.{Numbered, Ready, commit_of, relay_rounds, ack_rounds}
use chained_block_storage.Node.Progress.Committed.{run-Committed}

-- The next number that a client gets is the one after those of the queue.
pub record Waiting {V : Type 0} (n : Node V) (c : ℕ) (es : List PendingQueue.Entry) : Type 0 where
  pub ready : Ready n c es
  pub valid : IsValid n.pending
  pub next_number : n.current_seq ≡ n.write_seq + length es + 1

Numbered-fresh :
    (w k : ℕ) (es : List PendingQueue.Entry)
    → Numbered w es
    → w + length es < k
    → k < 2 ^ 31
    → count (int_bits k) (keys es) ≡ 0
unfolding count
Numbered-fresh w k [] h above below = refl
Numbered-fresh w k (e ∷ es) h above below =
    let rest = Numbered-fresh (w + 1) k es h.1 (omega (arith, above)) below in
    ground (arith, rest, h.0, above, below)

insert_entry-last :
    (w : ℕ) (e : PendingQueue.Entry) (es : List PendingQueue.Entry)
    → Numbered w es
    → w + length es < e.seq_num
    → PendingQueue.insert_entry e es ≡ es ++ e ∷ []
unfolding PendingQueue.insert_entry
insert_entry-last w e [] h above = refl
insert_entry-last w e (x ∷ es) h above =
    let rest = insert_entry-last (w + 1) e es h.1 (omega (arith, above)) in
    let later : ltb e.seq_num x.seq_num ≡ false = ground (arith, h.0, above) in
    rw later (ap (λ xs. x ∷ xs) rest)

Numbered-last :
    (w : ℕ) (e : PendingQueue.Entry) (es : List PendingQueue.Entry)
    → Numbered w es
    → e.seq_num ≡ w + length es + 1
    → Numbered w (es ++ e ∷ [])
Numbered-last w e [] h number = (omega (arith, number), tt)
Numbered-last w e (x ∷ es) h number = (h.0, Numbered-last (w + 1) e es h.1 (omega (arith, number)))

length-last :
    (es : List PendingQueue.Entry) (e : PendingQueue.Entry) → length (es ++ e ∷ []) ≡ length es + 1
length-last [] e = refl
length-last (x ∷ es) e = let rest = length-last es e in omega (arith, rest)

push_next :
    (q : PendingQueue.PendingQueue) (w : ℕ) (e : PendingQueue.Entry) (es : List PendingQueue.Entry)
    → q.queue ≡ es
    → IsValid q
    → Numbered w es
    → e.seq_num ≡ w + length es + 1
    → e.seq_num < 2 ^ 31
    → (q' : PendingQueue.PendingQueue) × (PendingQueue.push_entry q e ≡ ok q')
      × (q'.queue ≡ es ++ e ∷ [])
      × IsValid q'
push_next q w e es same valid numbered number b = elim (push_entry-Pushed q e valid) [
  | inl (there, thrown) ↦
      let fresh = Numbered-fresh w e.seq_num es numbered (omega (arith, number)) b in
      let here : count (int_bits e.seq_num) (keys q.queue) ≡ 0 =
        ap (λ xs. count (int_bits e.seq_num) (keys xs)) same ∙ fresh in
      absurd (omega (arith, there, here))
  | inr (q', done, fresh, placed, valid') ↦ (
    q',
    done,
    placed
        ∙ ap (PendingQueue.insert_entry e) same
        ∙ insert_entry-last w e es numbered (omega (arith, number)),
    valid',
  )
]

module _ {V : Type 0} where
  -- What a write of a client does to the queue: it stays, or the write is its last entry.
  abbrev Served :
      Node V → ℕ → List PendingQueue.Entry → WriteRequest → Node V × Answer (Option ℕ) → Type 0
  Served n c es r (n', answer) =
      ((answer ≡ replies none) × Waiting n' c es × (n'.current_seq ≡ n.current_seq))
      ⊎ ((answer ≡ replies (some n.current_seq))
          × Waiting n' c (es ++ entry_of r n.current_seq ∷ [])
          × (n'.current_seq ≡ n.current_seq + 1))

  with_log :
      (n : Node V) (c : ℕ) (es : List PendingQueue.Entry) (log : ReplayLog)
      → Waiting n c es
      → Waiting (record n { log = log }) c es
  with_log n c es log h = record {
    ready = record {
      sound = record {
        commits = h.ready.sound.commits;
        behind = h.ready.sound.behind;
        ordered = h.ready.sound.ordered;
        between = h.ready.sound.between;
        in_hand = h.ready.sound.in_hand;
      };
      at_end = h.ready.at_end;
      at_queue = h.ready.at_queue;
      waits = h.ready.waits;
      numbered = h.ready.numbered;
      filled = h.ready.filled;
    };
    valid = h.valid;
    next_number = h.next_number;
  }

  with_entry :
      (n : Node V) (c : ℕ) (es : List PendingQueue.Entry) (log : ReplayLog) (e : PendingQueue.Entry)
      (q : PendingQueue.PendingQueue)
      → Waiting n c es
      → e.seq_num ≡ n.current_seq
      → q.queue ≡ es ++ e ∷ []
      → IsValid q
      → Waiting
          (record n { log = log; current_seq = n.current_seq + 1; pending = q })
          c
          (es ++ e ∷ [])
  with_entry n c es log e q h number placed valid = record {
    ready = record {
      sound = record {
        commits = h.ready.sound.commits;
        behind = h.ready.sound.behind;
        ordered = h.ready.sound.ordered;
        between = h.ready.sound.between;
        in_hand = h.ready.sound.in_hand;
      };
      at_end = h.ready.at_end;
      at_queue = h.ready.at_queue;
      waits = placed;
      numbered = Numbered-last n.write_seq e es h.ready.numbered (number ∙ h.next_number);
      filled = h.ready.filled;
    };
    valid = valid;
    next_number = omega (arith, h.next_number, length-last es e);
  }

  enqueue-pushed :
      {A : Type 0} (m : Node V) (e : PendingQueue.Entry) (q : PendingQueue.PendingQueue) (reply : A)
      → PendingQueue.push_entry m.pending e ≡ ok q
      → enqueue m e reply ≡ (record m { pending = q }, replies reply)
  unfolding enqueue
  enqueue-pushed m e q reply pushed = rw (pushed, enqueue)

  write_logged-Served :
      (n : Node V) (c : ℕ) (es : List PendingQueue.Entry) (r : WriteRequest) (log : ReplayLog)
      (code : Code)
      → Waiting n c es
      → n.current_seq < 2 ^ 31
      → Served n c es r (write_logged n r (log, code))
  unfolding write_logged entry_of
  write_logged-Served n c es r log zero_code h b =
      let e = entry_of r n.current_seq in
      let (q, pushed, placed, valid) =
        push_next n.pending n.write_seq e es h.ready.waits h.valid h.ready.numbered h.next_number
          b in
      subst (Served n c es r)
        (sym (
          enqueue-pushed (record n { log = log; current_seq = n.current_seq + 1 }) e q
            (some n.current_seq) pushed))
        (inr (refl, with_entry n c es log e q h refl placed valid, refl))
  write_logged-Served n c es r log minus_one h b = inl (refl, with_log n c es log h, refl)
  write_logged-Served n c es r log minus_two h b = inl (refl, with_log n c es log h, refl)

  write-Served :
      (n : Node V) (c : ℕ) (es : List PendingQueue.Entry) (r : WriteRequest)
      → Waiting n c es
      → n.current_seq < 2 ^ 31
      → Served n c es r (write n r)
  unfolding write
  write-Served n c es r h b =
      write_logged-Served n c es r (add_to_log n.log r.req_id).0 (add_to_log n.log r.req_id).1 h b

  write_all-Waiting :
      (rs : List WriteRequest) (n : Node V) (c : ℕ) (es : List PendingQueue.Entry)
      → Waiting n c es
      → n.current_seq + length rs < 2 ^ 31
      → Waiting (write_all rs n) c (write_all rs n).pending.queue
        × ((write_all rs n).current_seq ≤ n.current_seq + length rs)
  unfolding write_all
  write_all-Waiting [] n c es h b = (subst (Waiting n c) (sym h.ready.waits) h, omega arith)
  write_all-Waiting (r ∷ rs) n c es h b = elim (write-Served n c es r h (omega (arith, b))) [
    | inl (_, h', same) ↦
        let (last, bound) = write_all-Waiting rs (write n r).0 c es h' (omega (arith, same, b)) in
        (last, omega (arith, same, bound))
    | inr (_, h', next) ↦
        let (last, bound) =
          write_all-Waiting rs (write n r).0 c (es ++ entry_of r n.current_seq ∷ []) h'
            (omega (arith, next, b)) in
        (last, omega (arith, next, bound))
  ]

module _ {V : Type 0} (storage : Storage V) (crashes : ℕ → Bool) where
  write_all-kept :
      (rs : List WriteRequest) (n : Node V)
      → ((write_all rs n).volume ≡ n.volume) × ((write_all rs n).write_seq ≡ n.write_seq)
  unfolding write_all
  write_all-kept [] n = (refl, refl)
  write_all-kept (r ∷ rs) n =
      let (volume, number, _, _, _) = write-Same storage crashes n r in
      let (volumes, numbers) = write_all-kept rs (write n r).0 in
      (volumes ∙ volume, numbers ∙ number)

  -- What the loops make of a node: the writes of its queue are stored, and then committed.
  abbrev pub Serves : Node V → V → Node V → Type 0
  Serves n v n' =
      (n'.pending.queue ≡ [])
      × (n'.write_seq + 1 ≡ n.current_seq)
      × (n'.commit_seq ≡ pos n'.write_seq)
      × (n'.volume ≡ apply storage (map wrote n.pending.queue ++ map commit_of n.pending.queue) v)

  -- A single server commits every write that it numbers. Take a node at the end of the chain whose numbers,
  -- queue and sent list agree, whose last write is committed, whose relay looks at the queue, where the
  -- process crashes at no offset and the numbers fit into an `int`, and any list of writes of clients.
  -- After them the queue has an entry for each number after the last write that was given, in order.
  -- Three rounds of the first loop for each entry of the queue and then one of the second for each store
  -- and commit everything: the queue is empty, the last write and the last commit have the last number
  -- that was given, and the volume is what it was at first after a write of each entry and then a
  -- commit of each, at its number and offset.
  pub write_all-Committed :
      (rs : List WriteRequest) (n : Node V) (answer : Status) (es : List PendingQueue.Entry)
      → Waiting n n.write_seq es
      → ((offset : ℕ) → crashes offset ≡ false)
      → n.current_seq + length rs < 2 ^ 31
      → let n' = write_all rs n in
        let q = n'.pending.queue in
        Numbered n.write_seq q
        × (n'.current_seq ≡ n.write_seq + length q + 1)
        × Serves n' n.volume
            (run storage crashes (relay_rounds answer q ++ ack_rounds (length q)) n')
  write_all-Committed rs n answer es h safe b =
      let n' = write_all rs n in
      let q = n'.pending.queue in
      let (waiting, bound) = write_all-Waiting rs n n.write_seq es h b in
      let (volume, number) = write_all-kept rs n in
      let (empty, last, commits, stored) =
        run-Committed storage crashes n' answer q
          (subst (λ k. Ready n' k q) (sym number) waiting.ready)
          (All-each (λ (e : PendingQueue.Entry). crashes e.volume_offset ≡ false)
            (λ e. safe e.volume_offset) q)
          (omega (arith, waiting.next_number, bound, b)) in
      (
        subst (λ k. Numbered k q) number waiting.ready.numbered,
        omega (arith, waiting.next_number, number),
        (
          empty,
          omega (arith, last, waiting.next_number),
          commits ∙ ap pos (sym last),
          stored ∙ ap (apply storage (map wrote q ++ map commit_of q)) volume,
        ),
      )
