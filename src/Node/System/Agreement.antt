-- ===== src/Node/System/Agreement.antt =====
-- The nodes of a chain store the same writes under the same numbers (src/server_main.cpp,
-- src/interfaceImpl/serverService).
use chained_block_storage.Base.{
  ℕ, ◌+◌, ◌^◌, ◌≤◌, ◌<◌, ◌≡◌, refl, ap, sym, subst, inl, inr, Bool, List, [], ◌∷◌, All, All-map,
  arith, ◌==◌, if◌then◌else◌, Bool-cases, Option, none, some,
}
use chained_block_storage.Tables.PendingQueue
use chained_block_storage.Node.{Storage, Node, looking, relaying}
use chained_block_storage.Node.Handlers.{WriteRequest, entry_of, write, relay_write}
use chained_block_storage.Node.Steps.{
  Event, client_write, upstream_write, relay_round, ack_round, downstream_ack, log_ack, changed,
  perform, OfRelay, Brings, Sound,
}
use chained_block_storage.Node.Entries.{write-Held}
use chained_block_storage.Node.Order.{Stepped, Stepped-append, quiet, write-Same}
use chained_block_storage.Node.Interleaving.{perform-Stepped, perform-write_seq}
use chained_block_storage.Node.System.{
  request_of, Nodes, set_node, Local, Step, Reached, client, local, relays, here, after,
}
use chained_block_storage.Node.System.History.{
  Among, History, none-History, more-History, entry_of-request_of, AllWrote-map, OfRelay-map,
  write-Numbers, relay_write-current_seq, set_node-cases, own_event-current_seq,
}

-- A node in which nothing waits.
pub record Started {V : Type 0} (n : Node V) (c : ℕ) : Type 0 where
  pub sound : Sound n c
  pub queue : n.pending.queue ≡ []
  pub relay : n.relay ≡ looking

module _ {V : Type 0} (storage : Storage V) (crashes : ℕ → Bool) where
  Stepped-map :
      (P Q : PendingQueue.Entry → Type 0)
      → ((e : PendingQueue.Entry) → P e → Q e)
      → (n : Node V) (c : ℕ) (n' : Node V) → Stepped storage crashes P n c n'
      → Stepped storage crashes Q n c n'
  Stepped-map P Q to n c n' s = record {
    advanced = s.advanced;
    entries = AllWrote-map P Q to s.advanced.ops s.entries;
    held = (All-map P Q to n'.pending.queue s.held.0, OfRelay-map P Q to n'.relay s.held.1);
  }

  -- What holds of all nodes: those that are stored and those that wait are entries of the history.
  record Agreeing (s : Nodes V) (c : ℕ → ℕ) (t : Nodes V) : Type 0 where
    pub history : List PendingQueue.Entry
    pub numbered : History history (t 0).current_seq
    pub stepped : (i : ℕ) → Stepped storage crashes (Among history) (s i) (c i) (t i)

  -- One node does a step, after which the history is the old one or has one entry more.
  with_node :
      (s : Nodes V) (c : ℕ → ℕ) (t : Nodes V) (a : Agreeing s c t) (j : ℕ) (n : Node V)
      → n.current_seq ≡ (t j).current_seq
      → Stepped storage crashes (Among a.history) (t j) (a.stepped j).advanced.commit_number n
      → Agreeing s c (set_node t j n)
  with_node s c t a j n same step =
      let first : (set_node t j n 0).current_seq ≡ (t 0).current_seq =
        set_node-cases (λ k (m : Node V). m.current_seq ≡ (t k).current_seq) t j n same (λ k. refl)
          0 in
      record {
        history = a.history;
        numbered = subst (History a.history) (sym first) a.numbered;
        stepped =
            set_node-cases (λ k m. Stepped storage crashes (Among a.history) (s k) (c k) m) t j n
              (Stepped-append storage crashes (Among a.history) (s j) (c j) (t j) n (a.stepped j)
                step)
              a.stepped;
      }

  own_event-Brings : (P : PendingQueue.Entry → Type 0) (e : Event) → Local e → Brings P e
  own_event-Brings P (client_write r) l = absurd l
  own_event-Brings P (upstream_write r) l = absurd l
  own_event-Brings P (relay_round answer) l = tt
  own_event-Brings P ack_round l = tt
  own_event-Brings P (downstream_ack k) l = tt
  own_event-Brings P (log_ack id) l = tt
  own_event-Brings P (changed state up down) l = tt

  abbrev Fits : Nodes V → Type 0
  Fits t = (i : ℕ) → (t i).write_seq + 1 < 2 ^ 31

  own_event-Agreeing :
      (s : Nodes V) (c : ℕ → ℕ) (t : Nodes V) (i : ℕ) (e : Event) (l : Local e)
      → Agreeing s c t
      → Fits t
      → Agreeing s c (set_node t i (perform storage crashes e (t i)))
  own_event-Agreeing s c t i e l a fits =
      let step = a.stepped i in
      with_node s c t a i (perform storage crashes e (t i))
        (own_event-current_seq storage crashes e (t i) l)
        (perform-Stepped storage crashes (Among a.history) e (t i) step.advanced.commit_number
          step.advanced.sound step.held (own_event-Brings (Among a.history) e l) (fits i))

  relays-Agreeing :
      (s : Nodes V) (c : ℕ → ℕ) (t : Nodes V) (i j : ℕ) (e : PendingQueue.Entry)
      → (t i).relay ≡ relaying e
      → Agreeing s c t
      → Fits t
      → Agreeing s c (set_node t j (perform storage crashes (upstream_write (request_of e)) (t j)))
  unfolding perform
  relays-Agreeing s c t i j e h a fits =
      let step = a.stepped j in
      let among : Among a.history e = subst (OfRelay (Among a.history)) h (a.stepped i).held.1 in
      let brought =
        subst (Among a.history) (sym (entry_of-request_of e (a.numbered.cut e among))) among in
      with_node s c t a j (relay_write (t j) (request_of e)).0 (relay_write-current_seq (t j) e) (
        perform-Stepped storage crashes (Among a.history) (upstream_write (request_of e)) (t j)
          step.advanced.commit_number step.advanced.sound step.held brought (fits j))

  client-Agreeing :
      (s : Nodes V) (c : ℕ → ℕ) (t : Nodes V) (r : WriteRequest)
      → Agreeing s c t
      → Agreeing s c (set_node t 0 (perform storage crashes (client_write r) (t 0)))
  unfolding perform Stepped-map
  client-Agreeing s c t r a =
      let n = t 0 in
      let n' = (write n r).0 in
      let e = entry_of r n.current_seq in
      let step = a.stepped 0 in
      let number = step.advanced.commit_number in
      elim (write-Numbers n r) [
        | inr (same, queue, relay) ↦ with_node s c t a 0 n' same (
            quiet storage crashes (Among a.history) n n' number step.advanced.sound
              (write-Same storage crashes n r)
              (
                subst (λ (q : PendingQueue.PendingQueue). All (Among a.history) q.queue) (sym queue)
                    step.held.0,
                subst (OfRelay (Among a.history)) (sym relay) step.held.1,
              ))
        | inl next ↦
            let more : List PendingQueue.Entry = e ∷ a.history in
            let old = λ (i : ℕ).
              Stepped-map (Among a.history) (Among more) (λ x m. inr m) (s i) (c i) (t i)
                (a.stepped i) in
            record {
              history = more;
              numbered =
                  subst (History more) (sym next)
                    (more-History a.history n.current_seq r a.numbered);
              stepped =
                  set_node-cases (λ k m. Stepped storage crashes (Among more) (s k) (c k) m) t 0 n'
                    (Stepped-append storage crashes (Among more) (s 0) (c 0) n n' (old 0) (
                      quiet storage crashes (Among more) n n' number step.advanced.sound
                        (write-Same storage crashes n r)
                        (write-Held (Among more) n r (old 0).held (inl refl))))
                    old;
            }
      ]

  any_event-write_seq :
      (t : Nodes V) (i : ℕ) (e : Event)
      → Fits (set_node t i (perform storage crashes e (t i)))
      → Fits t
  any_event-write_seq t i e fits k =
      let grows : (t k).write_seq ≤ (set_node t i (perform storage crashes e (t i)) k).write_seq =
        set_node-cases (λ j (m : Node V). (t j).write_seq ≤ m.write_seq) t i
          (perform storage crashes e (t i)) (perform-write_seq storage crashes e (t i))
          (λ j. omega arith) k in
      omega (arith, grows, fits k)

  each_move-Fits : (t u : Nodes V) → Step storage crashes t u → Fits u → Fits t
  each_move-Fits t u (client r) fits = any_event-write_seq t 0 (client_write r) fits
  each_move-Fits t u (local i e l) fits = any_event-write_seq t i e fits
  each_move-Fits t u (relays i j e h) fits =
      any_event-write_seq t j (upstream_write (request_of e)) fits

  each_move-Agreeing :
      (s : Nodes V) (c : ℕ → ℕ) (t u : Nodes V)
      → Step storage crashes t u
      → Fits t
      → Agreeing s c t
      → Agreeing s c u
  each_move-Agreeing s c t u (client r) fits a = client-Agreeing s c t r a
  each_move-Agreeing s c t u (local i e l) fits a = own_event-Agreeing s c t i e l a fits
  each_move-Agreeing s c t u (relays i j e h) fits a = relays-Agreeing s c t i j e h a fits

  at_start-Agreeing : (s : Nodes V) (c : ℕ → ℕ) → ((i : ℕ) → Started (s i) (c i)) → Agreeing s c s
  at_start-Agreeing s c h = record {
    history = [];
    numbered = none-History (s 0).current_seq;
    stepped = λ i.
        quiet storage crashes (Among []) (s i) (s i) (c i) (h i).sound
          (refl, refl, refl, refl, refl)
          (
            subst (All (Among [])) (sym (h i).queue) tt,
            subst (OfRelay (Among [])) (sym (h i).relay) tt,
          );
  }

  reached-Agreeing :
      (s : Nodes V) (c : ℕ → ℕ) (t : Nodes V)
      → ((i : ℕ) → Started (s i) (c i))
      → Reached storage crashes s t
      → Fits t
      → Agreeing s c t
  reached-Agreeing s c t h here fits = at_start-Agreeing s c h
  reached-Agreeing s c u h (after t u' reached step) fits =
      let before = each_move-Fits t u step fits in
      each_move-Agreeing s c t u step before (reached-Agreeing s c t h reached before)

-- The entry with a number.
abbrev numbered_by : List PendingQueue.Entry → ℕ → Option PendingQueue.Entry
numbered_by [] k = none
numbered_by (x ∷ xs) k = if x.seq_num == k then some x else numbered_by xs k

numbered_by-Among :
    (h : List PendingQueue.Entry) (e : PendingQueue.Entry)
    → ((x : PendingQueue.Entry) → Among h x → x.seq_num ≡ e.seq_num → x ≡ e)
    → Among h e
    → numbered_by h e.seq_num ≡ some e
numbered_by-Among [] e unique a = absurd a
numbered_by-Among (x ∷ xs) e unique a = elim (Bool-cases (x.seq_num == e.seq_num)) [
  | inl same ↦ rw same (ap some (unique x (inl refl) (ground (arith, same))))
  | inr other ↦ elim a [
    | inl first ↦
        let number = ap (λ (y : PendingQueue.Entry). y.seq_num) first in
        absurd (ground (arith, other, number))
    | inr later ↦ rw other (numbered_by-Among xs e (λ y b. unique y (inr b)) later)
  ]
]

module _ {V : Type 0} (storage : Storage V) (crashes : ℕ → Bool) where
  -- The nodes agree on the writes that clients send to one of them. Start from nodes in which nothing waits
  -- and whose numbers and sent lists agree. Let clients write to node 0 and to no other, and let all nodes
  -- do any of the other events of Node.Steps in any order, where RelayWrite comes in only for an entry
  -- that some node has in hand, at any node, any number of times, and is answered in any way. Restore,
  -- UpdateReplayLog and the resend of ChangeMode are not among the steps. As long as the numbers fit
  -- into an `int`, each number has at most one write, the same for all nodes: every node's volume is
  -- what it was after writes and commits in order of number and without a gap, each write is the one of
  -- its number, and so is each that waits.
  pub reached-Stepped :
      (s : Nodes V) (c : ℕ → ℕ) (t : Nodes V)
      → ((i : ℕ) → Started (s i) (c i))
      → Reached storage crashes s t
      → ((i : ℕ) → (t i).write_seq + 1 < 2 ^ 31)
      → (given : ℕ → Option PendingQueue.Entry) × ((i : ℕ)
          → Stepped storage crashes (λ e. given e.seq_num ≡ some e) (s i) (c i) (t i))
  reached-Stepped s c t h reached fits =
      let a = reached-Agreeing storage crashes s c t h reached fits in
      (
        numbered_by a.history,
        λ i.
            Stepped-map storage crashes (Among a.history)
              (λ e. numbered_by a.history e.seq_num ≡ some e)
              (λ e m. numbered_by-Among a.history e (λ x b same. a.numbered.unique x e b m same) m)
              (s i) (c i) (t i) (a.stepped i),
      )
