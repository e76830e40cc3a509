-- ===== src/Node/Entries.antt =====
-- The entries that wait in a node come from the writes that it is sent (HeadServiceImpl.cpp and
-- NodeListenerImpl.cpp of src/interfaceImpl/serverService).
use chained_block_storage.Base.{
  ℕ, ◌+◌, inl, inr, List, [], ◌∷◌, ◌++◌, All, Bool-cases, ltb, Option, none, some,
}
use chained_block_storage.Tables.Request.{Result, ok, throws, int_bits}
use chained_block_storage.Tables.PendingQueue
use chained_block_storage.Tables.ReplayLog.{
  zero_code, minus_one, minus_two, add_to_log, ReplayLog, Code,
}
use chained_block_storage.Node.{Node}
use chained_block_storage.Node.Handlers.{
  WriteRequest, RelayWriteRequest, Answer, replies, raises, entry_of, enqueue, write_logged, write,
  relay_write,
}
use chained_block_storage.Node.Steps.{Op, wrote, committed, AllWrote, Held}

module _ (P : PendingQueue.Entry → Type 0) where
  pub AllWrote-append :
      (ops more : List Op) → AllWrote P ops → AllWrote P more → AllWrote P (ops ++ more)
  AllWrote-append [] more h k = k
  AllWrote-append (wrote e ∷ ops) more h k = (h.0, AllWrote-append ops more h.1 k)
  AllWrote-append (committed s offset ∷ ops) more h k = AllWrote-append ops more h k

  insert_entry-All :
      (e : PendingQueue.Entry) (xs : List PendingQueue.Entry)
      → P e
      → All P xs
      → All P (PendingQueue.insert_entry e xs)
  unfolding PendingQueue.insert_entry
  insert_entry-All e [] h a = (h, tt)
  insert_entry-All e (x ∷ xs) h a = elim (Bool-cases (ltb e.seq_num x.seq_num)) [
    | inl before ↦ rw before (h, a)
    | inr after ↦ rw after (a.0, insert_entry-All e xs h a.1)
  ]

  abbrev AllPushed : Result PendingQueue.PendingQueue → Type 0
  AllPushed (ok q) = All P q.queue
  AllPushed (throws x) = Unit

  push_entry-All :
      (q : PendingQueue.PendingQueue) (e : PendingQueue.Entry)
      → P e
      → All P q.queue
      → AllPushed (PendingQueue.push_entry q e)
  unfolding PendingQueue.push_entry
  push_entry-All q e p a =
      elim (Bool-cases (PendingQueue.contains (int_bits e.seq_num) q.seq_num_set)) [
        | inl there ↦ rw there tt
        | inr new ↦ rw new (insert_entry-All e q.queue p a)
      ]

  abbrev pub AllPopped : Option (PendingQueue.Entry × PendingQueue.PendingQueue) → Type 0
  AllPopped none = Unit
  AllPopped (some (e, q)) = P e × All P q.queue

  popped-All :
      (es : List PendingQueue.Entry) (set : List ℕ)
      → All P es
      → AllPopped (PendingQueue.pop_entry (record { queue = es; seq_num_set = set }))
  unfolding PendingQueue.pop_entry
  popped-All [] set a = tt
  popped-All (e ∷ es) set a = a

  pub pop_entry-All :
      (q : PendingQueue.PendingQueue) → All P q.queue → AllPopped (PendingQueue.pop_entry q)
  pop_entry-All q a = popped-All q.queue q.seq_num_set a

  module _ {V : Type 0} where
    pushed-Held :
        {A : Type 0} (m : Node V) (a : A) (r : Result PendingQueue.PendingQueue)
        → Held P m
        → AllPushed r
        → Held P
            (elim r as (λ _. Node V × Answer A) [
              | ok q ↦ (record m { pending = q }, replies a)
              | throws x ↦ (m, raises x)
            ]).0
    pushed-Held m a (ok q) h g = (g, h.1)
    pushed-Held m a (throws x) h g = h

    enqueue-Held :
        {A : Type 0} (m : Node V) (e : PendingQueue.Entry) (a : A)
        → Held P m
        → P e
        → Held P (enqueue m e a).0
    unfolding enqueue
    enqueue-Held m e a h p =
        pushed-Held m a (PendingQueue.push_entry m.pending e) h (push_entry-All m.pending e p h.0)

    write_logged-Held :
        (n : Node V) (r : WriteRequest) (result : ReplayLog × Code)
        → Held P n
        → P (entry_of r n.current_seq)
        → Held P (write_logged n r result).0
    unfolding write_logged
    write_logged-Held n r (log, zero_code) h p =
        enqueue-Held (record n { log = log; current_seq = n.current_seq + 1 })
          (entry_of r n.current_seq) (some n.current_seq) h p
    write_logged-Held n r (log, minus_one) h p = h
    write_logged-Held n r (log, minus_two) h p = h

    pub write-Held :
        (n : Node V) (r : WriteRequest)
        → Held P n
        → P (entry_of r n.current_seq)
        → Held P (write n r).0
    unfolding write
    write-Held n r h p = write_logged-Held n r (add_to_log n.log r.req_id) h p

    relay_logged-Held :
        (n : Node V) (r : RelayWriteRequest) (log : ReplayLog) (code : Code)
        → Held P n
        → P (entry_of r.write r.seq_num)
        → Held P
            (elim code as (λ _. Node V × Answer Unit) [
              | zero_code ↦ enqueue (record n { log = log }) (entry_of r.write r.seq_num) tt
              | minus_one ↦ (record n { log = log }, replies tt)
              | minus_two ↦ (record n { log = log }, replies tt)
            ]).0
    relay_logged-Held n r log zero_code h p =
        enqueue-Held (record n { log = log }) (entry_of r.write r.seq_num) tt h p
    relay_logged-Held n r log minus_one h p = h
    relay_logged-Held n r log minus_two h p = h

    pub relay_write-Held :
        (n : Node V) (r : RelayWriteRequest)
        → Held P n
        → P (entry_of r.write r.seq_num)
        → Held P (relay_write n r).0
    unfolding relay_write
    relay_write-Held n r h p =
        relay_logged-Held n r (add_to_log n.log r.write.req_id).0
          (add_to_log n.log r.write.req_id).1 h p
