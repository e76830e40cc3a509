-- ===== src/Node/Numbering.antt =====
-- A client's write is numbered once: the head answers a request that comes again without a number.
use native.Mathlib.Decide.{ℕ_discrete}
use chained_block_storage.Base.{
  ℕ, ◌≡◌, ◌≢◌, refl, sym, subst, ◌∙◌, Bool, true, false, Option, none, some, List, [], ◌∷◌, arith,
}
use chained_block_storage.Tables.Request.{Timestamp, ClientRequestId}
use chained_block_storage.Tables.Identifier.{identifier, Text-discrete}
use chained_block_storage.Tables.ReplayLog.{
  ReplayLog, Code, zero_code, minus_one, minus_two, add_to_log,
}
use chained_block_storage.Tables.ReplayLog.Status.{IsValid, status, SameRequest, Updates}
use chained_block_storage.Tables.ReplayLog.Admission.{Added, is_too_old, add_to_log-Added}
use chained_block_storage.Node.{Node}
use chained_block_storage.Node.Handlers.{
  WriteRequest, write, write_logged, enqueue, Answer, replies,
}

Timestamp-discrete : Discrete Timestamp
Timestamp-discrete = hlevel ℕ_discrete

-- The request is in the log.
abbrev pub Known : ReplayLog → ClientRequestId → Type 0
Known log j = (b : Bool) × (status log j ≡ some b)

same_status :
    (log : ReplayLog) (j id : ClientRequestId) → SameRequest j id → status log j ≡ status log id
unfolding status
same_status log j id s = ground (arith, s.client, s.time)

Known-Updates :
    (log log' : ReplayLog) (j id : ClientRequestId) (b : Bool)
    → Updates log log' id (some b)
    → Known log j
    → Known log' j
Known-Updates log log' j id b u known = elim (Text-discrete (identifier j) (identifier id)) [
  | no differs ↦ (known.0, u.others j (λ s. differs s.client) ∙ known.1)
  | yes client ↦ elim (Timestamp-discrete j.timestamp id.timestamp) [
    | no differs ↦ (known.0, u.others j (λ s. differs s.time) ∙ known.1)
    | yes time ↦ (b, same_status log' j id (record { client = client; time = time }) ∙ u.here)
  ]
]

-- What a call of `addToLog` leaves: a valid log that knows what it knew, and the request unless it
-- was too old; and it gives 0 only to a request that was not there.
record Kept (log : ReplayLog) (id : ClientRequestId) (r : ReplayLog × Code) : Type 0 where
  valid : IsValid r.0
  keeps : (j : ClientRequestId) → Known log j → Known r.0 j
  enters : r.1 ≡ zero_code → Known r.0 id
  refuses : Known log id → r.1 ≢ zero_code

Kept-of :
    (log : ReplayLog) (id : ClientRequestId) (s : Option Bool) (old : Bool) (r : ReplayLog × Code)
    → IsValid log
    → status log id ≡ s
    → Added log id s old r
    → Kept log id r
Kept-of log id (some c) old r v e (code, u, valid) = record {
  valid = valid;
  keeps = λ j known. Known-Updates log r.0 j id c u known;
  enters = λ _. (c, u.here);
  refuses = λ _ z. absurd (ground arith);
}
Kept-of log id none true r v e a = subst (Kept log id) (sym a) (record {
  valid = v;
  keeps = λ j known. known;
  enters = λ z. absurd (ground arith);
  refuses = λ known z. absurd (ground arith);
})
Kept-of log id none false r v e (code, u, valid) = record {
  valid = valid;
  keeps = λ j known. Known-Updates log r.0 j id false u known;
  enters = λ _. (false, u.here);
  refuses = λ known z. absurd (ground arith);
}

add_to_log-Kept :
    (log : ReplayLog) (id : ClientRequestId) → IsValid log → Kept log id (add_to_log log id)
add_to_log-Kept log id v =
    Kept-of log id (status log id) (is_too_old log id) (add_to_log log id) v refl
      (add_to_log-Added log id v)

module _ {V : Type 0} where
  unfoldable pub write_all : List WriteRequest → Node V → Node V
  write_all [] n = n
  write_all (r ∷ rs) n = write_all rs (write n r).0

  write_logged-log :
      (n : Node V) (r : WriteRequest) (p : ReplayLog × Code) → (write_logged n r p).0.log ≡ p.0
  unfolding write_logged enqueue
  write_logged-log n r (log, zero_code) = ground arith
  write_logged-log n r (log, minus_one) = refl
  write_logged-log n r (log, minus_two) = refl

  write-log : (n : Node V) (r : WriteRequest) → (write n r).0.log ≡ (add_to_log n.log r.req_id).0
  unfolding write
  write-log n r = write_logged-log n r _

  numbered :
      (n : Node V) (r : WriteRequest) (p : ReplayLog × Code) (s : ℕ)
      → (write_logged n r p).1 ≡ replies (some s)
      → p.1 ≡ zero_code
  unfolding write_logged
  numbered n r (log, zero_code) s h = refl
  numbered n r (log, minus_one) s h = absurd (cc)
  numbered n r (log, minus_two) s h = absurd (cc)

  -- Without a number: the next number and the queue stay.
  abbrev pub Unnumbered : Node V → Node V × Answer (Option ℕ) → Type 0
  Unnumbered n o =
      (o.1 ≡ replies none) × (o.0.current_seq ≡ n.current_seq) × (o.0.pending ≡ n.pending)

  not_numbered :
      (n : Node V) (r : WriteRequest) (p : ReplayLog × Code)
      → p.1 ≢ zero_code
      → Unnumbered n (write_logged n r p)
  unfolding write_logged
  not_numbered n r (log, zero_code) h = absurd (h refl)
  not_numbered n r (log, minus_one) h = (refl, refl, refl)
  not_numbered n r (log, minus_two) h = (refl, refl, refl)

  after_writes :
      (rs : List WriteRequest) (n : Node V) (j : ClientRequestId)
      → IsValid n.log
      → Known n.log j
      → IsValid (write_all rs n).log × Known (write_all rs n).log j
  unfolding write_all
  after_writes [] n j v known = (v, known)
  after_writes (r ∷ rs) n j v known =
      let kept = add_to_log-Kept n.log r.req_id v in
      let log = write-log n r in
      after_writes rs (write n r).0 j (subst IsValid (sym log) kept.valid)
        (subst (λ l. Known l j) (sym log) (kept.keeps j known))

  -- On a node with a valid replay log, a write that the head has given a number gets no further number when the client sends it again,
  -- however many other writes came in between: the reply has none, and neither the next number nor
  -- the queue changes.
  pub write-write_all :
      (n : Node V) (r : WriteRequest) (rs : List WriteRequest) (s : ℕ)
      → IsValid n.log
      → (write n r).1 ≡ replies (some s)
      → Unnumbered (write_all rs (write n r).0) (write (write_all rs (write n r).0) r)
  unfolding write
  write-write_all n r rs s v h =
      let kept = add_to_log-Kept n.log r.req_id v in
      let log = write-log n r in
      let (valid, known) =
        after_writes rs (write n r).0 r.req_id (subst IsValid (sym log) kept.valid) (
          subst (λ l. Known l r.req_id) (sym log)
            (kept.enters (numbered n r (add_to_log n.log r.req_id) s h))) in
      not_numbered (write_all rs (write n r).0) r _
        ((add_to_log-Kept _ r.req_id valid).refuses known)
