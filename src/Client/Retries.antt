-- ===== src/Client/Retries.antt =====
-- What the loops of the client's writes do on every sequence of answers (src/client_api.cpp).
use chained_block_storage.Base.{
  ℕ, ◌≡◌, refl, ap, sym, subst, ◌∙◌, Option, inl, inr, Bool, true, false, none, some, List, [], ◌∷◌,
  All, All-map, arith, Bool-cases, if◌then◌else◌,
}
use chained_block_storage.OrderedMap
use chained_block_storage.OrderedMap.Laws.{find-insert_self}
use chained_block_storage.Protocol.{is_ok}
use chained_block_storage.Tables.Request.{Timestamp, timestamp_order}
use chained_block_storage.Tables.ReplayLog.Status.{IsValid}
use chained_block_storage.Node.{Node}
use chained_block_storage.Node.Handlers as Handlers
use chained_block_storage.Node.Handlers.{WriteRequest, replies}
use chained_block_storage.Node.Numbering.{Unnumbered, write_all, write-write_all}
use chained_block_storage.Client.{
  Client, PendingWriteEntry, ConfigAnswer, CallRound, answers, fails, Outcome, returns, throws,
  waits, undefined, Time, refresh_config, timestamp_of, request_of, add_pending, write_rounds,
  write, pop_pending_write, peek_pending_write, retry_rounds, retry_top_pending_write,
}

-- The head answers after some failures, and until then the master answers.
abbrev pub Reaches : List (Time × CallRound Unit) → Type 0
Reaches [] = ⊥
Reaches ((t, answers _) ∷ rounds) = Unit
Reaches ((t, fails a) ∷ rounds) = (is_ok a.status ≡ true) × Reaches rounds

-- The clients differ in the addresses only.
abbrev pub SameClient : Client → Client → Type 0
SameClient c d =
    (d.client_ip ≡ c.client_ip)
    × (d.client_pid ≡ c.client_pid)
    × (d.pending_writes ≡ c.pending_writes)
    × (d.locked ≡ c.locked)

-- How `write` ends.
abbrev pub Ended : Client → PendingWriteEntry → Client → Outcome Timestamp → Type 0
Ended c e d (returns s) =
    (d.client_ip ≡ c.client_ip)
    × (d.client_pid ≡ c.client_pid)
    × (d.pending_writes ≡ OrderedMap.insert timestamp_order s e c.pending_writes)
    × (d.locked ≡ false)
Ended c e d throws = SameClient c d
Ended c e d waits = SameClient c d
Ended c e d undefined = ⊥

abbrev redirected : Client → ConfigAnswer → Client
redirected c a = record c { head = a.head_addr; tail = a.tail_addr }

-- A property of what follows a failed call, by the answer of the master.
refresh_config-elim :
    {A : Type 0} (P : A → Type 0) (c : Client) (a : ConfigAnswer) (x : A) (f : Client → A)
    → (is_ok a.status ≡ true → P (f (redirected c a)))
    → (is_ok a.status ≡ false → P x)
    → P (elim (refresh_config c a) [ none ↦ x | some d ↦ f d ])
unfolding refresh_config
refresh_config-elim P c a x f up down =
    let by_answer : Bool → Type 0 =
      λ b. P (elim (if b then some (redirected c a) else none) [ none ↦ x | some d ↦ f d ]) in
    elim (Bool-cases (is_ok a.status)) [
      | inl h ↦ subst by_answer (sym h) (up h)
      | inr h ↦ subst by_answer (sym h) (down h)
    ]

Ended-redirected :
    (c : Client) (a : ConfigAnswer) (e : PendingWriteEntry) (d : Client) (x : Outcome Timestamp)
    → Ended (redirected c a) e d x
    → Ended c e d x
Ended-redirected c a e d (returns s) h = h
Ended-redirected c a e d throws h = h
Ended-redirected c a e d waits h = h
Ended-redirected c a e d undefined h = h

write_rounds-Ended :
    (c : Client) (beyond : List ℕ) (e : PendingWriteEntry) (rounds : List (Time × CallRound Unit))
    → Ended c e (write_rounds c beyond e rounds).1 (write_rounds c beyond e rounds).2
unfolding write_rounds add_pending
write_rounds-Ended c beyond e [] = (refl, refl, refl, refl)
write_rounds-Ended c beyond e ((t, answers _) ∷ rounds) = (refl, refl, refl, refl)
write_rounds-Ended c beyond e ((t, fails a) ∷ rounds) =
    let d = redirected c a in
    let rest = write_rounds-Ended d beyond e rounds in
    refresh_config-elim (λ (r : List WriteRequest × Client × Outcome Timestamp). Ended c e r.1 r.2)
      c a (request_of c beyond e (timestamp_of t) ∷ [], c, throws)
      (λ b.
        let (requests, f, x) = write_rounds b beyond e rounds in
        (request_of c beyond e (timestamp_of t) ∷ requests, f, x))
      (λ up.
        Ended-redirected c a e (write_rounds d beyond e rounds).1 (write_rounds d beyond e rounds).2
          rest)
      (λ down. (refl, refl, refl, refl))

write_rounds-Reaches :
    (P : Timestamp → Type 0) (c : Client) (beyond : List ℕ) (e : PendingWriteEntry)
    (rounds : List (Time × CallRound Unit))
    → Reaches rounds
    → All (λ r. P (timestamp_of r.0)) rounds
    → (s : Timestamp) × ((write_rounds c beyond e rounds).2 ≡ returns s) × P s
unfolding write_rounds
write_rounds-Reaches P c beyond e [] h a = absurd h
write_rounds-Reaches P c beyond e ((t, answers _) ∷ rounds) h a = (timestamp_of t, refl, a.0)
write_rounds-Reaches P c beyond e ((t, fails x) ∷ rounds) h a =
    let d = redirected c x in
    refresh_config-elim
      (λ (r : List WriteRequest × Client × Outcome Timestamp).
        (s : Timestamp) × (r.2 ≡ returns s) × P s)
      c x (request_of c beyond e (timestamp_of t) ∷ [], c, throws)
      (λ b.
        let (requests, f, y) = write_rounds b beyond e rounds in
        (request_of c beyond e (timestamp_of t) ∷ requests, f, y))
      (λ up. write_rounds-Reaches P d beyond e rounds h.1 a.1)
      (λ down. absurd (ground (arith, h.0, down)))

abbrev pub pending_at : Timestamp → Client → Option PendingWriteEntry
pending_at s c = OrderedMap.find timestamp_order s c.pending_writes

-- On a client whose lock is free, a write returns a timestamp, has its block pending under it beside the
-- older ones and frees the lock, if the head answers after some failures and the master answers after
-- each of those, and no write is pending under a time that the clock gives in these rounds.
pub write-returns :
    (c : Client) (beyond : List ℕ) (e : PendingWriteEntry) (rounds : List (Time × CallRound Unit))
    → c.locked ≡ false
    → Reaches rounds
    → All (λ r. pending_at (timestamp_of r.0) c ≡ none) rounds
    → let result = write c beyond e rounds in
      (s : Timestamp) × (result.2 ≡ returns s)
      × (pending_at s result.1 ≡ some e)
      × (result.1.pending_writes ≡ OrderedMap.insert timestamp_order s e c.pending_writes)
      × (result.1.locked ≡ false)
unfolding write
write-returns c beyond e rounds free h fresh =
    let d : Client = record c { locked = true } in
    let (s, done, new) =
      write_rounds-Reaches (λ s. pending_at s c ≡ none) d beyond e rounds h fresh in
    let ended =
      subst (Ended d e (write_rounds d beyond e rounds).1) done
        (write_rounds-Ended d beyond e rounds) in
    let inserted : OrderedMap.find timestamp_order s
          (OrderedMap.insert timestamp_order s e c.pending_writes)
        ≡ some e =
      ground (arith, find-insert_self timestamp_order s e c.pending_writes, new) in
    rw free (s, done, ap (OrderedMap.find timestamp_order s) ended.2 ∙ inserted, ended.2, ended.3)

locked_waits :
    (d : Client)
    → d.locked ≡ true
    → ((b : List ℕ) (f : PendingWriteEntry) (rs : List (Time × CallRound Unit))
        → write d b f rs ≡ ([], d, waits))
      × (pop_pending_write d ≡ (d, waits))
      × (peek_pending_write d ≡ (d, waits))
unfolding write pop_pending_write peek_pending_write
locked_waits d h = (λ b f rs. rw h refl, rw h refl, rw h refl)

throws_locked :
    (c : Client) (beyond : List ℕ) (e : PendingWriteEntry) (rounds : List (Time × CallRound Unit))
    → (write c beyond e rounds).2 ≡ throws
    → (write c beyond e rounds).1.locked ≡ true
unfolding write
throws_locked c beyond e rounds =
    let d : Client = record c { locked = true } in
    let by_lock : Bool → List WriteRequest × Client × Outcome Timestamp =
      λ b. if b then ([], c, waits) else write_rounds d beyond e rounds in
    let motive : Bool → Type 0 = λ b. (by_lock b).2 ≡ throws → (by_lock b).1.locked ≡ true in
    elim (Bool-cases c.locked) [
      | inl held ↦ subst motive (sym held) (λ h. absurd (cc))
      | inr free ↦ subst motive (sym free) (λ h.
          (subst (Ended d e (write_rounds d beyond e rounds).1) h
            (write_rounds-Ended d beyond e rounds)).3)
    ]

-- A write that throws, which it does when the master does not answer, keeps the lock: after it every
-- write, pop and peek waits for ever.
pub write-throws :
    (c : Client) (beyond : List ℕ) (e : PendingWriteEntry) (rounds : List (Time × CallRound Unit))
    → (write c beyond e rounds).2 ≡ throws
    → let d = (write c beyond e rounds).1 in
      ((b : List ℕ) (f : PendingWriteEntry) (rs : List (Time × CallRound Unit))
        → write d b f rs ≡ ([], d, waits))
      × (pop_pending_write d ≡ (d, waits))
      × (peek_pending_write d ≡ (d, waits))
write-throws c beyond e rounds h =
    locked_waits (write c beyond e rounds).1 (throws_locked c beyond e rounds h)

retry_rounds-All :
    (c : Client) (beyond : List ℕ) (t : Timestamp) (e : PendingWriteEntry)
    (rounds : List (CallRound Unit))
    → All (λ r. r ≡ request_of c beyond e t) (retry_rounds c beyond t e rounds).0
unfolding retry_rounds request_of
retry_rounds-All c beyond t e [] = tt
retry_rounds-All c beyond t e (answers _ ∷ rounds) = (refl, tt)
retry_rounds-All c beyond t e (fails a ∷ rounds) =
    refresh_config-elim
      (λ (r : List WriteRequest × Client × Outcome Timestamp).
        All (λ q. q ≡ request_of c beyond e t) r.0)
      c a (request_of c beyond e t ∷ [], c, throws)
      (λ b.
        let (requests, f, x) = retry_rounds b beyond t e rounds in
        (request_of c beyond e t ∷ requests, f, x))
      (λ up. (refl, retry_rounds-All (redirected c a) beyond t e rounds)) (λ down. (refl, tt))

retry_top-All :
    (c : Client) (beyond : List ℕ) (t : Timestamp) (e : PendingWriteEntry)
    (rest : List (Timestamp × PendingWriteEntry)) (rounds : List (CallRound Unit))
    → c.pending_writes ≡ (t, e) ∷ rest
    → All (λ r. r ≡ request_of c beyond e t) (retry_top_pending_write c beyond rounds).0
unfolding retry_top_pending_write
retry_top-All c beyond t e rest rounds h =
    let tried : List (Timestamp × PendingWriteEntry)
        → List WriteRequest × Client × Outcome Timestamp =
      λ m. elim m [ [] ↦ ([], c, undefined) | (u, f) ∷ more ↦ retry_rounds c beyond u f rounds ] in
    subst (λ m. All (λ r. r ≡ request_of c beyond e t) (tried m).0) (sym h)
      (retry_rounds-All c beyond t e rounds)

-- Once the head has numbered the request of the oldest pending write, whatever retryTopPendingWrite sends
-- for it gets no number and enters no queue, on a head with a valid replay log and after any other
-- writes.
pub retry_top-Unnumbered :
    {V : Type 0} (n : Node V) (c : Client) (beyond : List ℕ) (t : Timestamp) (e : PendingWriteEntry)
    (rest : List (Timestamp × PendingWriteEntry)) (rounds : List (CallRound Unit))
    (others : List WriteRequest) (s : ℕ)
    → c.pending_writes ≡ (t, e) ∷ rest
    → IsValid n.log
    → (Handlers.write n (request_of c beyond e t)).1 ≡ replies (some s)
    → let m = write_all others (Handlers.write n (request_of c beyond e t)).0 in
      All (λ r. Unnumbered m (Handlers.write m r)) (retry_top_pending_write c beyond rounds).0
retry_top-Unnumbered n c beyond t e rest rounds others s h v numbered =
    let r0 = request_of c beyond e t in
    let m = write_all others (Handlers.write n r0).0 in
    All-map (λ r. r ≡ r0) (λ r. Unnumbered m (Handlers.write m r))
      (λ r same.
        subst (λ q. Unnumbered m (Handlers.write m q)) (sym same)
          (write-write_all n r0 others s v numbered))
      (retry_top_pending_write c beyond rounds).0 (retry_top-All c beyond t e rest rounds h)
