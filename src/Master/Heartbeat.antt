-- ===== src/Master/Heartbeat.antt =====
-- A round of `run_heartbeat` (src/master_main.cpp): the nodes are called in turn, and the first that
-- is unavailable is repaired, which ends the round.
use chained_block_storage.Base.{ℕ, ◌≡◌, refl, sym, subst, ◌⊎◌, inl, inr, List, [], ◌∷◌, All}
use chained_block_storage.Protocol.{Status, ok, unavailable, unimplemented, other_error}
use chained_block_storage.Master.Nodes.{Master}
use chained_block_storage.Master.Failure.{Answers, Outcome, manage_failure}
use chained_block_storage.Master.Chain.{IsChain}
use chained_block_storage.Master.Chain.Positions.{rewind}
use chained_block_storage.Master.Chain.Middle.{Ends, manage_failure-IsChain}

-- All nodes were called, the repair of a node ended the round, or the process ends.
pub data Round : Type 0 where
  went_round : Master → Round
  repaired : Outcome → Round
  exits : Round

-- The answer of one node, with the rest of the round and the repair of the node.
unfoldable pub after_beat : Status → Round → Outcome → Round
after_beat ok rest repair = rest
after_beat unavailable rest repair = repaired repair
after_beat unimplemented rest repair = rest
after_beat other_error rest repair = exits

module _ (beat : ℕ → Status) (answers : Answers) (m : Master) where
  -- The loop over the copy of the list, with the nodes that were called, nearest first.
  unfoldable pub beats : List ℕ → List ℕ → Round
  unfolding after_beat
  beats before [] = went_round m
  beats before (n ∷ ns) =
      let rest = beats (n ∷ before) ns in
      after_beat (beat n) rest
        (manage_failure 2 answers m (record { before = before; current = n; after = ns }))

  unfoldable pub heartbeat_round : Round
  unfolding beats
  heartbeat_round = beats [] m.node_list

-- A node whose answer lets the round go on.
abbrev pub GoesOn : Status → Type 0
GoesOn s = (s ≡ ok) ⊎ (s ≡ unimplemented)

-- The node, at its place in the list, is the first whose answer does not let the round go on.
pub record Stops (beat : ℕ → Status) (m : Master) (before : List ℕ) (n : ℕ) (after : List ℕ)
    : Type 0 where
  pub place : m.node_list ≡ rewind before (n ∷ after)
  pub earlier : All (λ k. GoesOn (beat k)) before

-- What a round does: all nodes let it go on and nothing changes; or the first that does not is
-- unavailable, and its repair ends the round and leaves a chain in order; or the first that does not
-- gives an error that is not foreseen, and the process ends.
abbrev pub KeepsChain : (ℕ → Status) → Answers → Master → Round → Type 0
KeepsChain beat answers m r =
    (All (λ k. GoesOn (beat k)) m.node_list × (r ≡ went_round m))
    ⊎ ((before : List ℕ) × (n : ℕ) × (after : List ℕ) × Stops beat m before n after
        × (beat n ≡ unavailable)
        × (r
            ≡ repaired (
                manage_failure 2 answers m
                  (record { before = before; current = n; after = after })))
        × Ends
            (manage_failure 2 answers m (record { before = before; current = n; after = after })))
    ⊎ ((before : List ℕ) × (n : ℕ) × (after : List ℕ) × Stops beat m before n after
        × (beat n ≡ other_error)
        × (r ≡ exits))

All-rewind :
    (P : ℕ → Type 0) (before ns : List ℕ) → All P before → All P ns → All P (rewind before ns)
unfolding rewind
All-rewind P [] ns a b = b
All-rewind P (k ∷ before) ns a b = All-rewind P before (k ∷ ns) a.1 (a.0, b)

module _ (beat : ℕ → Status) (answers : Answers) (m : Master) (chain : IsChain m) where
  abbrev repair_at : List ℕ → ℕ → List ℕ → Outcome
  repair_at before n after =
      manage_failure 2 answers m (record { before = before; current = n; after = after })

  after_beat-KeepsChain :
      (before : List ℕ) (n : ℕ) (after : List ℕ) (s : Status) (rest : Round)
      → beat n ≡ s
      → Stops beat m before n after
      → (GoesOn (beat n) → KeepsChain beat answers m rest)
      → KeepsChain beat answers m (after_beat s rest (repair_at before n after))
  unfolding after_beat
  after_beat-KeepsChain before n after ok rest e st k = k (inl e)
  after_beat-KeepsChain before n after unavailable rest e st k = inr (
      inl (
        before,
        n,
        after,
        st,
        e,
        refl,
        manage_failure-IsChain 0 answers m before n after chain st.place,
      ))
  after_beat-KeepsChain before n after unimplemented rest e st k = k (inr e)
  after_beat-KeepsChain before n after other_error rest e st k =
      inr (inr (before, n, after, st, e, refl))

  beats-KeepsChain :
      (before ns : List ℕ)
      → m.node_list ≡ rewind before ns
      → All (λ k. GoesOn (beat k)) before
      → KeepsChain beat answers m (beats beat answers m before ns)
  unfolding beats
  beats-KeepsChain before [] e a =
      inl (subst (All (λ k. GoesOn (beat k))) (sym e) (All-rewind _ before [] a tt), refl)
  beats-KeepsChain before (n ∷ ns) e a =
      after_beat-KeepsChain before n ns (beat n) (beats beat answers m (n ∷ before) ns) refl
        (record { place = e; earlier = a })
        (λ g. beats-KeepsChain (n ∷ before) ns (unfold rewind in e) (g, a))

-- A round of heartbeats over a chain in order, whatever the nodes answer: either all answers let it go
-- on and nothing changes; or the first that does not is that of an unavailable node, whose repair,
-- which does not fault, ends the round and leaves a chain in order; or the first that does not is an
-- error that is not foreseen, and the process ends.
pub heartbeat_round-KeepsChain :
    (beat : ℕ → Status) (answers : Answers) (m : Master)
    → IsChain m
    → KeepsChain beat answers m (heartbeat_round beat answers m)
unfolding heartbeat_round
heartbeat_round-KeepsChain beat answers m chain =
    beats-KeepsChain beat answers m chain [] m.node_list (unfold rewind in refl) tt
