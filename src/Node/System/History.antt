-- ===== src/Node/System/History.antt =====
-- The entries that have been numbered, and what each handler of a node does to the numbers
-- (src/server_main.cpp, src/interfaceImpl/serverService).
use chained_block_storage.Base.{
  ℕ, ◌+◌, ◌<◌, ◌≡◌, refl, ap, sym, subst, ◌∙◌, ◌⊎◌, inl, inr, Bool, List, [], ◌∷◌, take, take-take,
  arith, ◌==◌, Bool-cases,
}
use chained_block_storage.Tables.PendingQueue
use chained_block_storage.Tables.ReplayLog.{
  ReplayLog, Code, zero_code, minus_one, minus_two, add_to_log,
}
use chained_block_storage.Node.{Storage, Node, Relay, looking, stopped, relaying, storing}
use chained_block_storage.Node.Handlers.{
  WriteRequest, entry_of, write_logged, write, enqueue, ack_replay_log, relay_write,
  relay_write_ack, commit_sent,
}
use chained_block_storage.Node.Background.{
  relay_step_at, relay_write_step, relay_write_ack_step, store, take_next,
}
use chained_block_storage.Node.Steps.{
  Op, wrote, committed, Event, client_write, upstream_write, relay_round, ack_round, downstream_ack,
  log_ack, changed, perform, AllWrote, OfRelay,
}
use chained_block_storage.Node.System.{request_of, Nodes, set_node, Local}

abbrev pub Among : List PendingQueue.Entry → PendingQueue.Entry → Type 0
Among [] e = ⊥
Among (x ∷ xs) e = (x ≡ e) ⊎ Among xs e

-- The entries that have been numbered: by one node, from below `next` and each number once, with no more
-- bytes than a block.
pub record History (h : List PendingQueue.Entry) (next : ℕ) : Type 0 where
  pub below : (e : PendingQueue.Entry) → Among h e → e.seq_num < next
  pub unique : (e x : PendingQueue.Entry) → Among h e → Among h x → e.seq_num ≡ x.seq_num → e ≡ x
  pub cut : (e : PendingQueue.Entry) → Among h e → take 4096 e.bytes ≡ e.bytes

pub none-History : (next : ℕ) → History [] next
none-History next = record {
  below = λ e a. absurd a;
  unique = λ e x a b same. absurd a;
  cut = λ e a. absurd a;
}

pub more-History :
    (h : List PendingQueue.Entry) (next : ℕ) (r : WriteRequest)
    → History h next
    → History (entry_of r next ∷ h) (next + 1)
unfolding entry_of
more-History h next r k =
    let e0 = entry_of r next in
    let number : e0.seq_num ≡ next = refl in
    record {
      below = λ e a. elim a [
        | inl same ↦
            subst (λ (x : PendingQueue.Entry). x.seq_num < next + 1) same (omega (arith, number))
        | inr old ↦ omega (arith, k.below e old)
      ];
      unique = λ e x a b same. elim a [
        | inl first ↦ elim b [
          | inl second ↦ sym first ∙ second
          | inr old ↦ absurd (
              omega (
                arith,
                k.below x old,
                ap (λ (y : PendingQueue.Entry). y.seq_num) first,
                same,
                number,
              ))
        ]
        | inr old ↦ elim b [
          | inl second ↦ absurd (
              omega (
                arith,
                k.below e old,
                ap (λ (y : PendingQueue.Entry). y.seq_num) second,
                same,
                number,
              ))
          | inr older ↦ k.unique e x old older same
        ]
      ];
      cut = λ e a. elim a [
        | inl same ↦
            subst (λ (x : PendingQueue.Entry). take 4096 x.bytes ≡ x.bytes) same
              (take-take 4096 r.bytes)
        | inr old ↦ k.cut e old
      ];
    }

pub entry_of-request_of :
    (e : PendingQueue.Entry)
    → take 4096 e.bytes ≡ e.bytes
    → entry_of (request_of e).write (request_of e).seq_num ≡ e
unfolding entry_of request_of
entry_of-request_of e cut = ap (λ bs. record e { bytes = bs }) cut

module _ (P Q : PendingQueue.Entry → Type 0) (to : (e : PendingQueue.Entry) → P e → Q e) where
  pub AllWrote-map : (ops : List Op) → AllWrote P ops → AllWrote Q ops
  AllWrote-map [] a = tt
  AllWrote-map (wrote e ∷ ops) a = (to e a.0, AllWrote-map ops a.1)
  AllWrote-map (committed s offset ∷ ops) a = AllWrote-map ops a

  pub OfRelay-map : (r : Relay) → OfRelay P r → OfRelay Q r
  OfRelay-map looking a = tt
  OfRelay-map stopped a = tt
  OfRelay-map (relaying e) a = to e a
  OfRelay-map (storing e) a = to e a

module _ {V : Type 0} where
  -- A write of a client changes the next number and the queue together, or neither.
  abbrev Numbers : Node V → Node V → Type 0
  Numbers n n' =
      (n'.current_seq ≡ n.current_seq + 1)
      ⊎ ((n'.current_seq ≡ n.current_seq) × (n'.pending ≡ n.pending) × (n'.relay ≡ n.relay))

  write_logged-Numbers :
      (n : Node V) (r : WriteRequest) (log : ReplayLog) (code : Code)
      → Numbers n (write_logged n r (log, code)).0
  unfolding write_logged enqueue
  write_logged-Numbers n r log zero_code = inl (ground arith)
  write_logged-Numbers n r log minus_one = inr (refl, refl, refl)
  write_logged-Numbers n r log minus_two = inr (refl, refl, refl)

  pub write-Numbers : (n : Node V) (r : WriteRequest) → Numbers n (write n r).0
  unfolding write
  write-Numbers n r =
      write_logged-Numbers n r (add_to_log n.log r.req_id).0 (add_to_log n.log r.req_id).1

  pub relay_write-current_seq :
      (n : Node V) (e : PendingQueue.Entry)
      → (relay_write n (request_of e)).0.current_seq ≡ n.current_seq
  unfolding relay_write enqueue
  relay_write-current_seq n e = ground arith

  pub set_node-cases :
      (Q : ℕ → Node V → Type 0) (s : Nodes V) (i : ℕ) (n : Node V)
      → Q i n
      → ((j : ℕ) → Q j (s j))
      → (j : ℕ) → Q j (set_node s i n j)
  set_node-cases Q s i n at_i others j = elim (Bool-cases (j == i)) [
    | inl same ↦ rw same (subst (λ k. Q k n) (ground (arith, same)) at_i)
    | inr other ↦ rw other (others j)
  ]

  module _ (storage : Storage V) (crashes : ℕ → Bool) where
    relay_step_at-current_seq :
        (n : Node V) (answer : _) (r : Relay)
        → (relay_step_at storage crashes n answer r).current_seq ≡ n.current_seq
    unfolding relay_step_at take_next store
    relay_step_at-current_seq n answer looking = ground arith
    relay_step_at-current_seq n answer stopped = refl
    relay_step_at-current_seq n answer (relaying e) = ground arith
    relay_step_at-current_seq n answer (storing e) = ground arith

    pub own_event-current_seq :
        (e : Event) (n : Node V)
        → Local e
        → (perform storage crashes e n).current_seq ≡ n.current_seq
    unfolding perform relay_write_step relay_write_ack_step relay_write_ack ack_replay_log
        commit_sent
    own_event-current_seq (client_write r) n l = absurd l
    own_event-current_seq (upstream_write r) n l = absurd l
    own_event-current_seq (relay_round answer) n l = relay_step_at-current_seq n answer n.relay
    own_event-current_seq ack_round n l = ground arith
    own_event-current_seq (downstream_ack k) n l = ground arith
    own_event-current_seq (log_ack id) n l = refl
    own_event-current_seq (changed state up down) n l = refl
