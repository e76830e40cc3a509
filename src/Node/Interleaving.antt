-- ===== src/Node/Interleaving.antt =====
-- The volume of a node sees writes and commits in order, whatever the interleaving of its steps.
use chained_block_storage.Base.{
  ℕ, ◌+◌, ◌^◌, ◌≤◌, ◌<◌, ◌≡◌, refl, ap, subst, ◌∙◌, inl, inr, Bool, List, [], ◌∷◌, All, All-each,
  ◌==◌, arith, Bool-cases, Option-cases,
}
use chained_block_storage.Protocol.{Status, is_ok}
use chained_block_storage.Tables.Int.{pos, to_int, to_int_small}
use chained_block_storage.Tables.PendingQueue
use chained_block_storage.Node.{
  Storage, Node, Relay, looking, stopped, relaying, storing, is_end, add_one, as_uint64,
  long_to_int,
}
use chained_block_storage.Node.Handlers.{relay_write_ack, ack_replay_log, commit_sent}
use chained_block_storage.Node.Background.{
  relay_step_at, relay_write_step, relay_write_ack_step, store, take_next,
}
use chained_block_storage.Node.Steps.{
  Event, client_write, upstream_write, relay_round, ack_round, downstream_ack, log_ack, changed,
  perform, run, InHand, Sound, OfRelay, Held, Brings,
}
use chained_block_storage.Node.Entries.{AllPopped, pop_entry-All, write-Held, relay_write-Held}
use chained_block_storage.Node.Order.{
  Stepped-append, Advanced, Stepped, quiet, with_relay, write-Same, relay_write-Same,
}
use chained_block_storage.Node.Order.Calls.{next, stored}

OfRelay-each : (r : Relay) → OfRelay (λ _. Unit) r
OfRelay-each looking = tt
OfRelay-each stopped = tt
OfRelay-each (relaying e) = tt
OfRelay-each (storing e) = tt

Brings-each : (e : Event) → Brings (λ _. Unit) e
Brings-each (client_write r) = λ s. tt
Brings-each (upstream_write r) = tt
Brings-each (relay_round answer) = tt
Brings-each ack_round = tt
Brings-each (downstream_ack s) = tt
Brings-each (log_ack id) = tt
Brings-each (changed state up down) = tt

module _ {V : Type 0} (storage : Storage V) (crashes : ℕ → Bool) where
  -- The call of a round of the loop, with its numbers as they are.
  pub ack_call :
      (n : Node V) (c : ℕ)
      → Sound n c
      → n.write_seq + 1 < 2 ^ 31
      → commit_sent storage n
          (long_to_int (add_one n.commit_seq))
          (add_one n.commit_seq)
          (add_one n.commit_seq)
        ≡ commit_sent storage n (pos (c + 1)) (pos (c + 1)) (pos (c + 1))
  unfolding add_one
  ack_call n c s b =
      let key : long_to_int (pos (c + 1)) ≡ pos (c + 1) =
        unfold long_to_int as_uint64 in to_int_small (c + 1) (omega (arith, s.behind)) in
      let number : add_one n.commit_seq ≡ pos (c + 1) = rw (s.commits, add_one) refl in
      ap (λ z. commit_sent storage n (long_to_int z) z z) number
      ∙ ap (λ k. commit_sent storage n k (pos (c + 1)) (pos (c + 1))) key

  module _ (P : PendingQueue.Entry → Type 0) where
    ack_round_Stepped :
        (n : Node V) (c : ℕ)
        → Sound n c
        → Held P n
        → n.write_seq + 1 < 2 ^ 31
        → Stepped storage crashes P n c (relay_write_ack_step storage crashes n)
    unfolding relay_write_ack_step
    ack_round_Stepped n c s a b =
        let call = ack_call n c s b in
        elim (Bool-cases (is_end n.state)) [
          | inr between ↦
              rw between (quiet storage crashes P n n c s (refl, refl, refl, refl, refl) a)
          | inl here ↦ elim (next storage crashes P n c s a) [
            | inl (x, thrown) ↦
                rw (here, call ∙ thrown)
                  (quiet storage crashes P n n c s (refl, refl, refl, refl, refl) a)
            | inr (n', done, advanced) ↦ rw (here, call ∙ done) advanced
          ]
        ]

    downstream_ack_Stepped :
        (n : Node V) (c k : ℕ)
        → Sound n c
        → Held P n
        → n.write_seq + 1 < 2 ^ 31
        → Stepped storage crashes P n c (relay_write_ack storage n k).0
    unfolding relay_write_ack
    downstream_ack_Stepped n c k s a b =
        let number : as_uint64 (add_one n.commit_seq) ≡ c + 1 =
          rw (s.commits, add_one, as_uint64) refl in
        elim (Bool-cases (c + 1 == k)) [
          | inr other ↦
              rw (number, other) (quiet storage crashes P n n c s (refl, refl, refl, refl, refl) a)
          | inl same ↦
              let k_eq : k ≡ c + 1 = ground arith in
              let key : to_int k ≡ pos (c + 1) =
                ap to_int k_eq ∙ to_int_small (c + 1) (omega (arith, s.behind)) in
              let call : commit_sent storage n (to_int k) (pos k) (to_int k)
                  ≡ commit_sent storage n (pos (c + 1)) (pos (c + 1)) (pos (c + 1)) =
                ap (λ z. commit_sent storage n z (pos k) z) key
                ∙ ap (λ j. commit_sent storage n (pos (c + 1)) (pos j) (pos (c + 1))) k_eq in
              elim (next storage crashes P n c s a) [
                | inl (x, thrown) ↦
                    rw (number, same, call ∙ thrown)
                      (quiet storage crashes P n n c s (refl, refl, refl, refl, refl) a)
                | inr (n', done, advanced) ↦ rw (number, same, call ∙ done) advanced
              ]
        ]

    taken :
        (n : Node V) (c : ℕ)
        → Sound n c
        → Held P n
        → n.relay ≡ looking
        → Stepped storage crashes P n c (take_next storage crashes n)
    unfolding take_next
    taken n c s a l = elim (Option-cases (PendingQueue.pop_entry n.pending)) [
      | inl empty ↦
          rw (empty, take_next) (quiet storage crashes P n n c s (refl, refl, refl, refl, refl) a)
      | inr (p, found) ↦ elim (Bool-cases (p.0.seq_num == n.write_seq + 1)) [
        | inl due ↦
            rw (found, take_next, due)
              (let first = subst (AllPopped P) found (pop_entry-All P n.pending a.0) in
                with_relay storage crashes P n c (relaying p.0) p.1 s (ground arith) first.1
                  first.0)
        | inr early ↦
            rw (found, take_next, early)
              (quiet storage crashes P n n c s (refl, refl, refl, refl, refl) a)
      ]
    ]

    relay_round_Stepped :
        (n : Node V) (c : ℕ) (answer : Status) (r : Relay)
        → Sound n c
        → Held P n
        → n.write_seq + 1 < 2 ^ 31
        → n.relay ≡ r
        → Stepped storage crashes P n c (relay_step_at storage crashes n answer r)
    unfolding relay_step_at
    relay_round_Stepped n c answer looking s a b e = taken n c s a e
    relay_round_Stepped n c answer stopped s a b e =
        quiet storage crashes P n n c s (refl, refl, refl, refl, refl) a
    relay_round_Stepped n c answer (storing x) s a b e =
        stored storage crashes P n c x s (subst (InHand n.write_seq) e s.in_hand) b a
          (subst (OfRelay P) e a.1)
    relay_round_Stepped n c answer (relaying x) s a b e =
        let goes_on : Stepped storage crashes P n c (record n { relay = storing x }) =
          with_relay storage crashes P n c (storing x) n.pending s
            (subst (InHand n.write_seq) e s.in_hand) a.0 (subst (OfRelay P) e a.1) in
        elim (Bool-cases (is_end n.state)) [
          | inl here ↦ rw here goes_on
          | inr between ↦ elim (Bool-cases (is_ok answer)) [
            | inl answered ↦ rw (between, answered) goes_on
            | inr silent ↦
                rw (between, silent)
                  (quiet storage crashes P n n c s (refl, refl, refl, refl, refl) a)
          ]
        ]

    pub perform-Stepped :
        (e : Event) (n : Node V) (c : ℕ)
        → Sound n c
        → Held P n
        → Brings P e
        → n.write_seq + 1 < 2 ^ 31
        → Stepped storage crashes P n c (perform storage crashes e n)
    unfolding perform ack_replay_log relay_write_step
    perform-Stepped (client_write r) n c s a p b =
        quiet storage crashes P n _ c s (write-Same storage crashes n r)
          (write-Held P n r a (p n.current_seq))
    perform-Stepped (upstream_write r) n c s a p b =
        quiet storage crashes P n _ c s (relay_write-Same storage crashes n r)
          (relay_write-Held P n r a p)
    perform-Stepped (relay_round answer) n c s a p b =
        relay_round_Stepped n c answer n.relay s a b refl
    perform-Stepped ack_round n c s a p b = ack_round_Stepped n c s a b
    perform-Stepped (downstream_ack k) n c s a p b = downstream_ack_Stepped n c k s a b
    perform-Stepped (log_ack id) n c s a p b =
        quiet storage crashes P n _ c s (refl, refl, refl, refl, refl) a
    perform-Stepped (changed state up down) n c s a p b =
        quiet storage crashes P n _ c s (refl, refl, refl, refl, refl) a

  relay_step_at-write_seq :
      (n : Node V) (answer : Status) (r : Relay)
      → n.write_seq ≤ (relay_step_at storage crashes n answer r).write_seq
  unfolding relay_step_at take_next store
  relay_step_at-write_seq n answer looking = ground arith
  relay_step_at-write_seq n answer stopped = ground arith
  relay_step_at-write_seq n answer (relaying e) = ground arith
  relay_step_at-write_seq n answer (storing e) = ground arith

  pub perform-write_seq :
      (e : Event) (n : Node V) → n.write_seq ≤ (perform storage crashes e n).write_seq
  unfolding perform ack_replay_log relay_write_step relay_write_ack_step relay_write_ack commit_sent
  perform-write_seq (client_write r) n = omega (arith, (write-Same storage crashes n r).1)
  perform-write_seq (upstream_write r) n = omega (arith, (relay_write-Same storage crashes n r).1)
  perform-write_seq (relay_round answer) n = relay_step_at-write_seq n answer n.relay
  perform-write_seq ack_round n = ground arith
  perform-write_seq (downstream_ack k) n = ground arith
  perform-write_seq (log_ack id) n = omega arith
  perform-write_seq (changed state up down) n = omega arith

  run-write_seq :
      (es : List Event) (n : Node V) → n.write_seq ≤ (run storage crashes es n).write_seq
  unfolding run
  run-write_seq [] n = omega arith
  run-write_seq (e ∷ es) n =
      omega (arith, perform-write_seq e n, run-write_seq es (perform storage crashes e n))

  module _ (P : PendingQueue.Entry → Type 0) where
    -- The same for nodes in which the entries that wait are some `P`.
    pub run-Stepped :
        (es : List Event) (n : Node V) (c : ℕ)
        → Sound n c
        → Held P n
        → All (Brings P) es
        → (run storage crashes es n).write_seq + 1 < 2 ^ 31
        → Stepped storage crashes P n c (run storage crashes es n)
    unfolding run
    run-Stepped [] n c s a p b = quiet storage crashes P n n c s (refl, refl, refl, refl, refl) a
    run-Stepped (e ∷ es) n c s a p b =
        let n' = perform storage crashes e n in
        let first =
          perform-Stepped P e n c s a p.0
            (omega (arith, perform-write_seq e n, run-write_seq es n')) in
        let rest =
          run-Stepped es n' first.advanced.commit_number first.advanced.sound first.held p.1 b in
        Stepped-append storage crashes P n c n' _ first rest

  -- Take a node whose numbers, sent list and relay agree, and any sequence of its handlers, the rounds
  -- of its loops and changes of its state, as long as the numbers fit into an `int`. Its volume is
  -- what it was after some writes and commits, where the writes have the numbers after the last
  -- write, in order and without a gap, the commits those after the last commit, and no commit comes
  -- before the write of its number; and the node's numbers, sent list and relay still agree.
  pub run-Advanced :
      (es : List Event) (n : Node V) (c : ℕ)
      → Sound n c
      → (run storage crashes es n).write_seq + 1 < 2 ^ 31
      → Advanced storage crashes n c (run storage crashes es n)
  run-Advanced es n c s b =
      (run-Stepped (λ _. Unit) es n c s
        (All-each (λ _. Unit) (λ _. tt) n.pending.queue, OfRelay-each n.relay)
        (All-each (Brings (λ _. Unit)) Brings-each es) b).advanced
