-- ===== src/Node/Progress/Stored.antt =====
-- Three rounds of the first loop store the first entry of the queue (src/server_main.cpp,
-- `relay_write_background`).
use chained_block_storage.Base.{
  ℕ, ◌+◌, ◌^◌, ◌<◌, ◌≡◌, ◌≢◌, refl, ap, sym, subst, ◌∙◌, Bool, true, false, Option, some, inl, inr,
  List, ◌∷◌, arith, ◌==◌, Bool-cases,
}
use chained_block_storage.Protocol.{Status}
use chained_block_storage.Tables.Request.{ok}
use chained_block_storage.Tables.Int.{ℤ, pos, to_int, to_int_small}
use chained_block_storage.Tables.PendingQueue
use chained_block_storage.Tables.SentList
use chained_block_storage.Tables.SentList.{SentEntry, SentList}
use chained_block_storage.Tables.SentList.Laws.{lookup, Pushed, push_entry-lookup}
use chained_block_storage.Node.{Storage, Node, looking, relaying, storing, is_end}
use chained_block_storage.Node.Background.{relay_step_at, relay_write_step, store, take_next}
use chained_block_storage.Node.Steps.{perform, run}
use chained_block_storage.Node.Order.{not_there}
use chained_block_storage.Node.Interleaving.{run-Advanced}
use chained_block_storage.Node.Progress.{Filled, Ready, entry_rounds, Sound-at, sent_of, SameUpTo}

pop_of :
    (xs : List PendingQueue.Entry) (set : List ℕ) (e : PendingQueue.Entry)
    (es : List PendingQueue.Entry)
    → xs ≡ e ∷ es
    → (q : PendingQueue.PendingQueue) × (PendingQueue.pop_entry
          (record { queue = xs; seq_num_set = set })
        ≡ some (e, q))
      × (q.queue ≡ es)
unfolding PendingQueue.pop_entry
pop_of xs set e es h =
    subst
      (λ ys.
        (q : PendingQueue.PendingQueue) × (PendingQueue.pop_entry
            (record { queue = ys; seq_num_set = set })
          ≡ some (e, q))
        × (q.queue ≡ es))
      (sym h) (_, refl, refl)

module _ {V : Type 0} (storage : Storage V) (crashes : ℕ → Bool) where
  -- The node after the entry is stored.
  abbrev stored_node : Node V → PendingQueue.PendingQueue → PendingQueue.Entry → SentList → Node V
  stored_node n q e sent = record n {
    pending = q;
    volume = storage.write e.bytes e.volume_offset e.seq_num n.volume;
    write_seq = n.write_seq + 1;
    sent = sent;
    relay = looking;
  }

  take_round :
      (n : Node V) (answer : Status) (e : PendingQueue.Entry) (q : PendingQueue.PendingQueue)
      → n.relay ≡ looking
      → PendingQueue.pop_entry n.pending ≡ some (e, q)
      → e.seq_num ≡ n.write_seq + 1
      → relay_write_step storage crashes n answer ≡ record n { pending = q; relay = relaying e }
  unfolding relay_write_step relay_step_at take_next
  take_round n answer e q l found number =
      let due : (e.seq_num == n.write_seq + 1) ≡ true = ground arith in
      ap (relay_step_at storage crashes n answer) l ∙ rw (found, take_next, due) refl

  relay_at_end :
      (n : Node V) (answer : Status) (e : PendingQueue.Entry)
      → n.relay ≡ relaying e
      → is_end n.state ≡ true
      → relay_write_step storage crashes n answer ≡ record n { relay = storing e }
  unfolding relay_write_step relay_step_at
  relay_at_end n answer e l h = ap (relay_step_at storage crashes n answer) l ∙ rw h refl

  store_round :
      (n : Node V) (answer : Status) (e : PendingQueue.Entry) (sent : SentList)
      → n.relay ≡ storing e
      → crashes e.volume_offset ≡ false
      → SentList.push_entry n.sent
          (to_int e.seq_num)
          (record { req_id = e.req_id; volume_offset = e.volume_offset })
        ≡ ok sent
      → relay_write_step storage crashes n answer ≡ stored_node n n.pending e sent
  unfolding relay_write_step relay_step_at store
  store_round n answer e sent l goes pushed =
      ap (relay_step_at storage crashes n answer) l ∙ rw (goes, pushed) refl

  run_entry :
      (n : Node V) (answer : Status) (e : PendingQueue.Entry) (q : PendingQueue.PendingQueue)
      (sent : SentList)
      → n.relay ≡ looking
      → is_end n.state ≡ true
      → PendingQueue.pop_entry n.pending ≡ some (e, q)
      → e.seq_num ≡ n.write_seq + 1
      → crashes e.volume_offset ≡ false
      → SentList.push_entry n.sent
          (to_int e.seq_num)
          (record { req_id = e.req_id; volume_offset = e.volume_offset })
        ≡ ok sent
      → run storage crashes (entry_rounds answer) n ≡ stored_node n q e sent
  unfolding run perform
  run_entry n answer e q sent l h found number goes pushed =
      let step : Node V → Node V = λ m. relay_write_step storage crashes m answer in
      ap (λ m. step (step m)) (take_round n answer e q l found number)
      ∙ ap step (relay_at_end (record n { pending = q; relay = relaying e }) answer e refl h)
      ∙ store_round (record n { pending = q; relay = storing e }) answer e sent refl goes pushed

  Filled-stored :
      (c w : ℕ) (sent sent' : SentList) (e : SentEntry)
      → Filled c w sent
      → lookup (pos (w + 1)) sent' ≡ some e
      → ((j : ℤ) → j ≢ pos (w + 1) → lookup j sent' ≡ lookup j sent)
      → Filled c (w + 1) sent'
  Filled-stored c w sent sent' e filled new others j above below = elim (Bool-cases (j == w + 1)) [
    | inl last ↦ (e, ap (λ i. lookup (pos i) sent') (ground (arith, last)) ∙ new)
    | inr before ↦
        let (x, found) = filled j above (ground (arith, before, below)) in
        (x, others (pos j) (λ h. absurd (ground (arith, before, h))) ∙ found)
  ]

  -- Three rounds store the first entry of the queue and keep its offset in the sent list.
  pub run_entry-Ready :
      (n : Node V) (answer : Status) (c : ℕ) (e : PendingQueue.Entry) (es : List PendingQueue.Entry)
      → Ready n c (e ∷ es)
      → crashes e.volume_offset ≡ false
      → n.write_seq + 2 < 2 ^ 31
      → let n' = run storage crashes (entry_rounds answer) n in
        Ready n' c es
        × (n'.write_seq ≡ n.write_seq + 1)
        × (lookup (pos (n.write_seq + 1)) n'.sent ≡ some (sent_of e))
        × SameUpTo n.write_seq n.sent n'.sent
        × (n'.volume ≡ storage.write e.bytes e.volume_offset e.seq_num n.volume)
  run_entry-Ready n answer c e es r goes b =
      let entry : SentEntry = record { req_id = e.req_id; volume_offset = e.volume_offset } in
      let (q, found, left) = pop_of n.pending.queue n.pending.seq_num_set e es r.waits in
      let (sent', pushed, ordered, new, others, _) =
        subst
          (λ (before : Option SentEntry).
            Pushed n.sent (pos (n.write_seq + 1)) entry before
              (SentList.push_entry n.sent (pos (n.write_seq + 1)) entry))
          (not_there storage crashes n c (n.write_seq + 1) r.sound (omega arith))
          (push_entry-lookup n.sent (pos (n.write_seq + 1)) entry r.sound.ordered) in
      let key : to_int e.seq_num ≡ pos (n.write_seq + 1) =
        ap to_int r.numbered.0 ∙ to_int_small (n.write_seq + 1) (omega (arith, b)) in
      let n' = stored_node n q e sent' in
      let ran : run storage crashes (entry_rounds answer) n ≡ n' =
        run_entry n answer e q sent' r.at_queue r.at_end found r.numbered.0 goes
          (ap (λ k. SentList.push_entry n.sent k entry) key ∙ pushed) in
      let number : (run storage crashes (entry_rounds answer) n).write_seq ≡ n.write_seq + 1 =
        ap (λ (m : Node V). m.write_seq) ran in
      let adv =
        run-Advanced storage crashes (entry_rounds answer) n c r.sound (omega (arith, number, b)) in
      (
        subst (λ m. Ready m c es) (sym ran)
            (record {
              sound =
                  Sound-at n' (run storage crashes (entry_rounds answer) n) c adv.commit_number ran
                    adv.sound.commits r.sound.commits adv.sound;
              at_end = r.at_end;
              at_queue = refl;
              waits = left;
              numbered = r.numbered.1;
              filled = Filled-stored c n.write_seq n.sent sent' entry r.filled new others;
            }),
        number,
        ap (λ (m : Node V). lookup (pos (n.write_seq + 1)) m.sent) ran ∙ new,
        λ j below.
            ap (λ (m : Node V). lookup (pos j) m.sent) ran
            ∙ others (pos j) (λ h. absurd (ground (arith, below, h))),
        ap (λ (m : Node V). m.volume) ran,
      )
