-- ===== src/Master/Chain/Middle.antt =====
-- The repair after a node in the middle fails, and the repair as a whole.
use chained_block_storage.Base.{
  ℕ, suc, ◌≡◌, refl, sym, ◌∙◌, inr, Bool, true, false, none, some, List, [], ◌∷◌, ◌&&◌,
  if◌then◌else◌, arith,
}
use chained_block_storage.Protocol.{ChangeModeRequest, is_ok, head_state, tail_state, middle_state}
use chained_block_storage.Master.Nodes.{Node, Master, address, remove_all}
use chained_block_storage.Master.Failure.{
  Answers, Position, Outcome, returns, Probe, drop, join, with_failure, probed_up, probed_down,
  middle_failed, manage_failure,
}
use chained_block_storage.Master.Chain.{count, is_nonempty, last, role, Follows, IsChain}
use chained_block_storage.Master.Chain.Positions.{
  rewind, Leads, count-rewind, Follows-rewind, last-rewind, first-rewind, remove-rewind,
}
use chained_block_storage.Master.Chain.Repair.{
  Repaired, survivors, IsChain-of, At, drop_start, At-place, nobody_left,
}
use chained_block_storage.Master.Chain.Probes.{
  responding, Once, Probed, answered, endpoint_too, probe-Probed,
}
use chained_block_storage.Master.Chain.Head.{head_failed-Repaired}
use chained_block_storage.Master.Chain.Tail.{tail_failed-Repaired}

-- The request to the node after the gap: its new upstream neighbour, and its own state.
abbrev down_request : Master → ℕ → ℕ → ChangeModeRequest
down_request m u d = record {
  prev_addr = some (address m.node u);
  next_addr = none;
  new_state = (m.node d).state;
  last_seq_num = 0;
}

-- The request to the node before the gap: its new downstream neighbour, its own state, and the last
-- number that the one after the gap reports.
abbrev up_request : Answers → Master → ℕ → ℕ → ChangeModeRequest
up_request answers m u d = record {
  prev_addr = none;
  next_addr = some (address m.node d);
  new_state = (m.node u).state;
  last_seq_num = (answers.change_mode d (down_request m u d)).1.last_received_seq_num;
}

-- Whether there is a node on each side, and both accept their requests.
unfoldable pub both_accept : Answers → Master → List ℕ → List ℕ → Bool
both_accept answers m [] down = false
both_accept answers m (u ∷ us) [] = false
both_accept answers m (u ∷ us) (d ∷ ds) =
    is_ok (answers.change_mode d (down_request m u d)).0
    && is_ok (answers.change_mode u (up_request answers m u d)).0

-- The repair returns with a chain in order. It returns 0 just if the first of `up` and the first of
-- `down` accept their requests, and then the chain is the nodes of `up`, nearest first, and those of
-- `down`, in the states that they had.
pub record Mended (answers : Answers) (m : Master) (up down : List ℕ) (o : Outcome) : Type 0 where
  pub mended : Master
  pub code : Bool
  pub success : o ≡ returns mended code
  pub in_order : IsChain mended
  pub accepted : code ≡ both_accept answers m up down
  pub joined : code ≡ true → (mended.node_list ≡ rewind up down) × (mended.node ≡ m.node)

module _ (answers : Answers) (m : Master) (c : IsChain m) (up down : List ℕ) where
  -- The endpoint takes the repair over, and the call returns -1.
  handed_over :
      {nodes : List ℕ} (o : Outcome)
      → both_accept answers m up down ≡ false
      → Repaired nodes o
      → Mended answers m up down (with_failure o)
  unfolding with_failure
  handed_over o none_ r = record {
    mended = r.repaired;
    code = false;
    success = rw r.success;
    in_order = r.in_order;
    accepted = sym none_;
    joined = λ e. absurd (cc);
  }

  fails : both_accept answers m up down ≡ false → Mended answers m up down (returns m false)
  fails refused = record {
    mended = m;
    code = false;
    success = refl;
    in_order = c;
    accepted = sym refused;
    joined = λ e. absurd (cc);
  }

  either_fails :
      (a b : Bool) {o : Outcome}
      → both_accept answers m up down ≡ a && b
      → (both_accept answers m up down ≡ true → Mended answers m up down o)
      → Mended answers m up down (if a then (if b then o else returns m false) else returns m false)
  either_fails true true e done = done e
  either_fails true false e done = fails e
  either_fails false b e done = fails e

  join-Mended :
      (u : ℕ) (us : List ℕ) (d : ℕ) (ds drop_list : List ℕ)
      → up ≡ u ∷ us
      → down ≡ d ∷ ds
      → remove_all drop_list m.node_list ≡ rewind (u ∷ us) (d ∷ ds)
      → Leads m.node true (u ∷ us)
      → Follows m.node true (d ∷ ds)
      → m.head ≡ last (u ∷ us)
      → m.tail ≡ last (d ∷ ds)
      → Once (u ∷ us) (d ∷ ds)
      → Mended answers m up down (join answers m d u drop_list)
  unfolding join drop both_accept
  join-Mended u us d ds drop_list ups downs left l f h t o =
      let chain : IsChain (record m { node_list = remove_all drop_list m.node_list }) =
        IsChain-of _ left ((Follows-rewind m.node (u ∷ us) (d ∷ ds)).1 (l, f))
          (λ k. rw (count-rewind k (u ∷ us) (d ∷ ds)) (o k))
          (inr (h ∙ sym (first-rewind u us (d ∷ ds)), t ∙ sym (last-rewind (u ∷ us) d ds))) in
      either_fails _ _ (rw (ups, downs)) (λ both. record {
        mended = record m { node_list = remove_all drop_list m.node_list };
        code = true;
        success = refl;
        in_order = chain;
        accepted = sym both;
        joined = λ e. (rw (ups, downs) left, refl);
      })

none_up :
    (answers : Answers) (m : Master) (up down : List ℕ)
    → up ≡ []
    → both_accept answers m up down ≡ false
unfolding both_accept
none_up answers m up down e = rw e refl

none_down :
    (answers : Answers) (m : Master) (up down : List ℕ)
    → down ≡ []
    → both_accept answers m up down ≡ false
unfolding both_accept
none_down answers m [] down e = refl
none_down answers m (u ∷ us) down e = rw e refl

middle_state_of :
    (node : ℕ → Node) (n b a : ℕ) (before after : List ℕ)
    → (node n).state ≡ role (is_nonempty (b ∷ before)) (is_nonempty (a ∷ after))
    → (node n).state ≡ middle_state
unfolding role
middle_state_of node n b a before after h = h

-- The endpoints are in the states that the repair of an endpoint looks for.
manage_tail :
    (fuel : ℕ) (answers : Answers) (m : Master) (t n : ℕ) (ns : List ℕ)
    → At m (n ∷ ns) t []
    → Repaired
        (rewind (survivors answers tail_state (n ∷ ns)) [])
        (manage_failure (suc fuel) answers m (record { before = n ∷ ns; current = t; after = [] }))
unfolding manage_failure role
manage_tail fuel answers m t n ns a = rw a.here (tail_failed-Repaired answers m t n ns a)

manage_head :
    (fuel : ℕ) (answers : Answers) (m : Master) (h n : ℕ) (ns : List ℕ)
    → At m [] h (n ∷ ns)
    → Repaired
        (survivors answers head_state (n ∷ ns))
        (manage_failure (suc fuel) answers m (record { before = []; current = h; after = n ∷ ns }))
unfolding manage_failure role
manage_head fuel answers m h n ns a = rw a.here (head_failed-Repaired answers m h n ns a)

module _ (fuel : ℕ) (answers : Answers) (m : Master) (chain : IsChain m) (b : ℕ) (before : List ℕ)
    (n a : ℕ) (after : List ℕ) (at : At m (b ∷ before) n (a ∷ after)) where
  abbrev ups : List ℕ
  ups = responding answers (b ∷ before)

  abbrev downs : List ℕ
  downs = responding answers (a ∷ after)

  abbrev again : Master → Position → Outcome
  again = manage_failure (suc fuel) answers

  abbrev place : Position
  place = record { before = b ∷ before; current = n; after = a ∷ after }

  upstream :
      (d : ℕ) (ds : List ℕ) (r : Probe)
      → downs ≡ d ∷ ds
      → m.tail ≡ last (d ∷ ds)
      → Follows m.node true (d ∷ ds)
      → Probed answers m.node_list m.head
          (d ∷ ds)
          (λ x. rewind x (d ∷ ds))
          (λ passed x. rewind x passed)
          (Leads m.node true)
          (b ∷ before)
          r
      → Mended answers m ups downs (probed_up answers again m place d r)
  unfolding probed_up
  upstream d ds r e t f (answered u us drop_list alive_ responds left h l o) =
      rw (alive_, probed_up)
        (join-Mended answers m chain ups downs u us d ds drop_list responds e left l f h t
          (λ k. omega (arith, o k)))
  upstream d ds r e t f (endpoint_too p passed h failed whole silent) =
      rw (failed, probed_up)
        (handed_over answers m chain ups downs _ (none_up answers m ups downs silent) (
          manage_head fuel answers m h p passed
            (At-place m [] h (p ∷ passed) chain (unfold rewind in whole))))

  downstream :
      (r : Probe)
      → Probed answers m.node_list m.tail
          (b ∷ before)
          (rewind (b ∷ before))
          rewind
          (Follows m.node true)
          (a ∷ after)
          r
      → Mended answers m ups downs (probed_down answers again m place r)
  unfolding probed_down last
  downstream r (answered d ds drop_list alive_ responds left t f o) =
      rw (alive_, probed_down)
        (upstream d ds _ responds t f (
          probe-Probed answers m.node_list m.head (d ∷ ds) (λ x. rewind x (d ∷ ds))
            (λ passed x. rewind x passed) (Leads m.node true)
            (λ k x z w. unfold rewind in remove-rewind k x (d ∷ ds) w z)
            (λ k passed x. unfold rewind in refl) (λ k x l. l.1) b before n (a ∷ after) drop_list
            left at.place at.head_end at.leads (λ k. omega (arith, o k))))
  downstream r (endpoint_too p passed t failed whole silent) =
      rw (failed, probed_down)
        (handed_over answers m chain ups downs _ (none_down answers m ups downs silent)
          (manage_tail fuel answers m t p passed (At-place m (p ∷ passed) t [] chain whole)))

-- When a node with others on both sides fails, in a chain in order: the call returns with a chain in
-- order. It returns 0 just if on each side some node answers a heartbeat and the nearest ones accept
-- their calls of ChangeMode: the downstream one gets the address of the upstream one as its previous
-- node and 0 as the last number, the upstream one the address of the downstream one as its next node and
-- the last number that the downstream one reported, and each its own state. Then the chain is the nodes up
-- to the nearest upstream and those from the nearest downstream on, and no node's state has changed.
pub middle_failed-Mended :
    (fuel : ℕ) (answers : Answers) (m : Master) (b : ℕ) (before : List ℕ) (n a : ℕ) (after : List ℕ)
    → IsChain m
    → At m (b ∷ before) n (a ∷ after)
    → Mended answers m (responding answers (b ∷ before)) (responding answers (a ∷ after)) (
        middle_failed answers
          (manage_failure (suc fuel) answers)
          m
          (record { before = b ∷ before; current = n; after = a ∷ after }))
unfolding middle_failed
middle_failed-Mended fuel answers m b before n a after chain at =
    downstream fuel answers m chain b before n a after at _ (
      probe-Probed answers m.node_list m.tail (b ∷ before) (rewind (b ∷ before)) rewind
        (Follows m.node true) (λ k x z w. remove-rewind k (b ∷ before) x z w)
        (λ k passed x. unfold rewind in refl) (λ k x f. f.1) a after n (b ∷ before) (n ∷ [])
        (drop_start m (b ∷ before) n (a ∷ after) at) (unfold rewind in at.place)
        (unfold last in at.tail_end) at.follows (λ k. unfold count in ground (arith, at.once k)))

-- The call ends, and leaves a chain in order.
abbrev pub Ends : Outcome → Type 0
Ends o = (m : Master) × (code : Bool) × (o ≡ returns m code) × IsChain m

Ends-of_Repaired : {nodes : List ℕ} (o : Outcome) → Repaired nodes o → Ends o
Ends-of_Repaired o r = (r.repaired, true, r.success, r.in_order)

manage-At :
    (fuel : ℕ) (answers : Answers) (m : Master) (before : List ℕ) (n : ℕ) (after : List ℕ)
    → IsChain m
    → At m before n after
    → Ends (
        manage_failure
          (suc (suc fuel))
          answers
          m
          (record { before = before; current = n; after = after }))
unfolding rewind
manage-At fuel answers m [] n [] chain at =
    unfold manage_failure role in
    rw at.here (Ends-of_Repaired _ (nobody_left m (n ∷ []) (drop_start m [] n [] at)))
manage-At fuel answers m [] n (a ∷ after) chain at =
    Ends-of_Repaired _ (manage_head (suc fuel) answers m n a after at)
manage-At fuel answers m (b ∷ before) n [] chain at =
    Ends-of_Repaired _ (manage_tail (suc fuel) answers m n b before at)
manage-At fuel answers m (b ∷ before) n (a ∷ after) chain at =
    let mends = middle_failed-Mended fuel answers m b before n a after chain at in
    unfold manage_failure role in
    rw at.here (mends.mended, mends.code, mends.success, mends.in_order)

-- Whichever node of a chain in order fails, and whatever the others answer, the repair with a fuel
-- of two or more ends without a fault and leaves a chain in order.
pub manage_failure-IsChain :
    (fuel : ℕ) (answers : Answers) (m : Master) (before : List ℕ) (n : ℕ) (after : List ℕ)
    → IsChain m
    → m.node_list ≡ rewind before (n ∷ after)
    → Ends (
        manage_failure
          (suc (suc fuel))
          answers
          m
          (record { before = before; current = n; after = after }))
manage_failure-IsChain fuel answers m before n after chain e =
    manage-At fuel answers m before n after chain (At-place m before n after chain e)
