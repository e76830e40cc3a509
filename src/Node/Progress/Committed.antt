-- ===== src/Node/Progress/Committed.antt =====
-- The rounds of the second loop commit what is stored (src/server_main.cpp,
-- `relay_write_ack_background`).
use chained_block_storage.Base.{
  ℕ, ◌+◌, ◌^◌, ◌<◌, ◌≡◌, ◌≢◌, refl, ap, sym, subst, ◌∙◌, Bool, true, false, some, map, List, [],
  ◌∷◌, ◌++◌, length, All, arith,
}
use chained_block_storage.Protocol.{Status}
use chained_block_storage.Tables.Request.{ok}
use chained_block_storage.Tables.Int.{ℤ, pos}
use chained_block_storage.Tables.PendingQueue
use chained_block_storage.Tables.SentList
use chained_block_storage.Tables.SentList.{SentEntry, SentList}
use chained_block_storage.Tables.SentList.Laws.{lookup, Popped, pop_entry-lookup}
use chained_block_storage.Tables.ReplayLog.{commit_log_entry}
use chained_block_storage.Node.{Storage, Node, is_end}
use chained_block_storage.Node.Handlers.{commit_sent}
use chained_block_storage.Node.Background.{relay_write_ack_step}
use chained_block_storage.Node.Steps.{Event, ack_round, perform, run, Sound, wrote, apply}
use chained_block_storage.Node.Order.{apply-append}
use chained_block_storage.Node.Interleaving.{ack_call, run-Advanced}
use chained_block_storage.Node.Progress.{
  Numbered, Filled, Ready, Listed, SameFrom, SameUpTo, Listed-SameFrom, sent_of, commit_of,
  relay_rounds, entry_rounds, ack_rounds, Sound-at,
}
use chained_block_storage.Node.Progress.Stored.{run_entry-Ready}

module _ {V : Type 0} (storage : Storage V) (crashes : ℕ → Bool) where
  -- The node after the commit of the next number.
  abbrev committed_node : Node V → ℕ → SentEntry → SentList → Node V
  committed_node n c entry sent = record n {
    sent = sent;
    volume = storage.commit (pos (c + 1)) entry.volume_offset n.volume;
    log = (commit_log_entry n.log entry.req_id).0;
    commit_seq = pos (c + 1);
  }

  commit_next :
      (n : Node V) (c : ℕ) (entry : SentEntry) (sent : SentList)
      → SentList.pop_entry n.sent (pos (c + 1)) ≡ ok (entry, sent)
      → commit_sent storage n (pos (c + 1)) (pos (c + 1)) (pos (c + 1))
        ≡ ok (committed_node n c entry sent)
  unfolding commit_sent
  commit_next n c entry sent popped = rw (popped, commit_sent)

  run_ack :
      (n : Node V) (c : ℕ) (entry : SentEntry) (sent : SentList)
      → Sound n c
      → n.write_seq + 1 < 2 ^ 31
      → is_end n.state ≡ true
      → SentList.pop_entry n.sent (pos (c + 1)) ≡ ok (entry, sent)
      → run storage crashes (ack_round ∷ []) n ≡ committed_node n c entry sent
  unfolding run perform relay_write_ack_step
  run_ack n c entry sent s b h popped =
      let call = ack_call storage crashes n c s b in
      let done = commit_next n c entry sent popped in rw (h, call ∙ done) refl

  Filled-committed :
      (c w : ℕ) (sent sent' : SentList)
      → Filled c w sent
      → ((j : ℤ) → j ≢ pos (c + 1) → lookup j sent' ≡ lookup j sent)
      → Filled (c + 1) w sent'
  Filled-committed c w sent sent' filled others j above below =
      let (x, found) = filled j (omega (arith, above)) below in
      (x, others (pos j) (λ h. absurd (ground (arith, above, h))) ∙ found)

  run_ack-Ready :
      (n : Node V) (c : ℕ) (es : List PendingQueue.Entry)
      → Ready n c es
      → c < n.write_seq
      → n.write_seq + 1 < 2 ^ 31
      → let n' = run storage crashes (ack_round ∷ []) n in
        Ready n' (c + 1) es
        × (n'.write_seq ≡ n.write_seq)
        × ((entry : SentEntry) × (lookup (pos (c + 1)) n.sent ≡ some entry)
            × (n'.volume ≡ storage.commit (pos (c + 1)) entry.volume_offset n.volume))
        × SameFrom (c + 2) n.sent n'.sent
  run_ack-Ready n c es r below b =
      let (entry, there) = r.filled (c + 1) (omega arith) (omega (arith, below)) in
      let (sent', popped, ordered, gone, others) =
        subst (λ x. Popped n.sent (pos (c + 1)) x (SentList.pop_entry n.sent (pos (c + 1)))) there
          (pop_entry-lookup n.sent (pos (c + 1)) r.sound.ordered) in
      let n' = committed_node n c entry sent' in
      let ran : run storage crashes (ack_round ∷ []) n ≡ n' =
        run_ack n c entry sent' r.sound b r.at_end popped in
      let number : (run storage crashes (ack_round ∷ []) n).write_seq ≡ n.write_seq =
        ap (λ (m : Node V). m.write_seq) ran in
      let adv =
        run-Advanced storage crashes (ack_round ∷ []) n c r.sound (omega (arith, number, b)) in
      (
        subst (λ m. Ready m (c + 1) es) (sym ran)
            (record {
              sound =
                  Sound-at n' (run storage crashes (ack_round ∷ []) n) (c + 1) adv.commit_number ran
                    adv.sound.commits refl adv.sound;
              at_end = r.at_end;
              at_queue = r.at_queue;
              waits = r.waits;
              numbered = r.numbered;
              filled = Filled-committed c n.write_seq n.sent sent' r.filled others;
            }),
        number,
        (entry, there, ap (λ (m : Node V). m.volume) ran),
        λ j above.
            ap (λ (m : Node V). lookup (pos j) m.sent) ran
            ∙ others (pos j) (λ h. absurd (ground (arith, above, h))),
      )

  relay_rounds-Ready :
      (es : List PendingQueue.Entry) (n : Node V) (answer : Status) (c : ℕ)
      → Ready n c es
      → All (λ e. crashes e.volume_offset ≡ false) es
      → n.write_seq + length es + 1 < 2 ^ 31
      → let n' = run storage crashes (relay_rounds answer es) n in
        Ready n' c []
        × (n'.write_seq ≡ n.write_seq + length es)
        × Listed es n'.sent
        × SameUpTo n.write_seq n.sent n'.sent
        × (n'.volume ≡ apply storage (map wrote es) n.volume)
  unfolding run
  relay_rounds-Ready [] n answer c r a b = (r, omega arith, tt, λ j below. refl, refl)
  relay_rounds-Ready (e ∷ es) n answer c r a b =
      let (first, number, new, old, volume) =
        run_entry-Ready storage crashes n answer c e es r a.0 (omega (arith, b)) in
      let n' = run storage crashes (entry_rounds answer) n in
      let (rest, last, listed, kept, volumes) =
        relay_rounds-Ready es n' answer c first a.1 (omega (arith, number, b)) in
      let n'' = run storage crashes (relay_rounds answer es) n' in
      let here : lookup (pos (n.write_seq + 1)) n''.sent ≡ some (sent_of e) =
        kept (n.write_seq + 1) (omega (arith, number)) ∙ new in
      (
        rest,
        omega (arith, number, last),
        (ap (λ k. lookup (pos k) n''.sent) r.numbered.0 ∙ here, listed),
        λ j below. kept j (omega (arith, number, below)) ∙ old j below,
        volumes ∙ ap (apply storage (map wrote es)) volume,
      )

  ack_rounds-Ready :
      (es : List PendingQueue.Entry) (n : Node V) (c : ℕ)
      → Ready n c []
      → Numbered c es
      → Listed es n.sent
      → c + length es ≡ n.write_seq
      → n.write_seq + 1 < 2 ^ 31
      → let n' = run storage crashes (ack_rounds (length es)) n in
        Ready n' n.write_seq []
        × (n'.write_seq ≡ n.write_seq)
        × (n'.volume ≡ apply storage (map commit_of es) n.volume)
  unfolding run
  ack_rounds-Ready [] n c r numbered listed e b =
      (subst (λ j. Ready n j []) (omega (arith, e)) r, refl, refl)
  ack_rounds-Ready (x ∷ es) n c r numbered listed e b =
      let (first, number, (entry, there, volume), kept) =
        run_ack-Ready n c [] r (omega (arith, e)) b in
      let n' = run storage crashes (ack_round ∷ []) n in
      let (rest, last, volumes) =
        ack_rounds-Ready es n' (c + 1) first numbered.1
          (Listed-SameFrom es (c + 2) (c + 1) n.sent n'.sent numbered.1 (omega arith) kept listed.1)
          (omega (arith, e, number)) (omega (arith, number, b)) in
      let same : entry.volume_offset ≡ x.volume_offset =
        let found : some entry ≡ some (sent_of x) =
          sym there ∙ ap (λ k. lookup (pos k) n.sent) (sym numbered.0) ∙ listed.0 in
        let inner : entry ≡ sent_of x = cc in ap (λ (y : SentEntry). y.volume_offset) inner in
      (
        subst (λ j. Ready (run storage crashes (ack_rounds (length es)) n') j []) number rest,
        last ∙ number,
        volumes
            ∙ ap (apply storage (map commit_of es)) (
                volume
                ∙ ap (λ o. storage.commit (pos (c + 1)) o n.volume) same
                ∙ ap (λ k. storage.commit (pos k) x.volume_offset n.volume) (sym numbered.0)),
      )

  run-run :
      (es more : List Event) (n : Node V)
      → run storage crashes (es ++ more) n ≡ run storage crashes more (run storage crashes es n)
  unfolding run
  run-run [] more n = refl
  run-run (e ∷ es) more n = run-run es more (perform storage crashes e n)

  -- A node at the end of the chain works off its queue. Take a node whose numbers and sent list agree,
  -- whose last commit is its last write, and whose relay looks at a queue with the numbers after that, in
  -- order and without a gap, where the process crashes at none of the queue's offsets and the numbers
  -- fit into an `int`. After three rounds of the first loop for each entry, and then a round of the
  -- second for each, the queue is empty, and the volume is what it was after a write of each entry
  -- and then a commit of each, at its number and offset.
  pub run-Committed :
      (n : Node V) (answer : Status) (es : List PendingQueue.Entry)
      → Ready n n.write_seq es
      → All (λ e. crashes e.volume_offset ≡ false) es
      → n.write_seq + length es + 1 < 2 ^ 31
      → let last = n.write_seq + length es in
        let n' = run storage crashes (relay_rounds answer es ++ ack_rounds (length es)) n in
        (n'.pending.queue ≡ [])
        × (n'.write_seq ≡ last)
        × (n'.commit_seq ≡ pos last)
        × (n'.volume ≡ apply storage (map wrote es ++ map commit_of es) n.volume)
  run-Committed n answer es r a b =
      let m = run storage crashes (relay_rounds answer es) n in
      let (stored, number, listed, _, writes) = relay_rounds-Ready es n answer n.write_seq r a b in
      let (done, last, commits) =
        ack_rounds-Ready es m n.write_seq stored r.numbered listed (sym number)
          (omega (arith, number, b)) in
      let here : m.write_seq ≡ n.write_seq + length es = number in
      let split = sym (run-run (relay_rounds answer es) (ack_rounds (length es)) n) in
      subst
        (λ (x : Node V).
          (x.pending.queue ≡ [])
          × (x.write_seq ≡ n.write_seq + length es)
          × (x.commit_seq ≡ pos (n.write_seq + length es))
          × (x.volume ≡ apply storage (map wrote es ++ map commit_of es) n.volume))
        split
        (
          done.waits,
          last ∙ here,
          done.sound.commits ∙ ap pos here,
          commits
              ∙ ap (apply storage (map commit_of es)) writes
              ∙ sym (apply-append storage crashes (map wrote es) (map commit_of es) n.volume),
        )
