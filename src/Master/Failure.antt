-- ===== src/Master/Failure.antt =====
-- `hlp_Manage_Failure` (src/master_main.cpp). The answers of the nodes to the calls of one repair
-- are a parameter: a call is made at most once for a node and a request.
use chained_block_storage.Base.{
  ℕ, zero, suc, Bool, true, false, Option, none, some, List, [], ◌∷◌, ◌++◌, if◌then◌else◌,
}
use chained_block_storage.Protocol.{
  State, head_state, tail_state, middle_state, single_state, initialize_state, transition_state,
  Status, is_ok, ChangeModeRequest, ChangeModeReply,
}
use chained_block_storage.Master.Nodes.{Master, set_state, address, remove_all, points_at}

pub record Answers : Type 0 where
  pub heartbeat : ℕ → Status
  pub change_mode : ℕ → ChangeModeRequest → Status × ChangeModeReply

-- An iterator into the list of nodes: the nodes before it, nearest first, its own, and those after.
pub record Position : Type 0 where
  pub before : List ℕ
  pub current : ℕ
  pub after : List ℕ

-- `fault`: an iterator is moved past an end of the list and read, or the fuel has run out.
-- Otherwise the state of the master, and whether the call returned 0 (true) or -1 (false).
pub data Outcome : Type 0 where
  fault : Outcome
  returns : Master → Bool → Outcome

abbrev pub mode_request : State → ChangeModeRequest
mode_request s = record { prev_addr = none; next_addr = none; new_state = s; last_seq_num = 0 }

pub data Scan : Type 0 where
  found : ℕ → State → List ℕ → Scan
  nobody : List ℕ → Scan
  past_end : Scan

-- The loop for a failed head or tail, over the nodes that lie ahead. The last of them is asked to
-- be the single server, any other to take the place of the failed node.
unfoldable pub scan : Answers → State → Option ℕ → List ℕ → List ℕ → Scan
scan answers failed endpoint [] drop_list = past_end
scan answers failed endpoint (n ∷ ahead) drop_list =
    let further = scan answers failed endpoint ahead (drop_list ++ n ∷ []) in
    let new_state = if points_at endpoint n then single_state else failed in
    if is_ok (answers.change_mode n (mode_request new_state)).0
    then found n new_state drop_list
    else if points_at endpoint n
    then nobody (drop_list ++ n ∷ [])
    else further

unfoldable pub drop : Master → List ℕ → Master
drop m drop_list = record m { node_list = remove_all drop_list m.node_list }

unfoldable pub head_scanned : Master → Scan → Outcome
unfolding drop
head_scanned m (found n s drop_list) =
    returns (drop (record m { node = set_state m.node n s; head = some n }) drop_list) true
head_scanned m (nobody drop_list) = returns (drop m drop_list) true
head_scanned m past_end = fault

unfoldable pub tail_scanned : Master → Scan → Outcome
unfolding drop
tail_scanned m (found n s drop_list) =
    returns (drop (record m { node = set_state m.node n s; tail = some n }) drop_list) true
tail_scanned m (nobody drop_list) = returns (drop m drop_list) true
tail_scanned m past_end = fault

-- The case of a failed head: the chain shrinks from the front.
unfoldable pub head_failed : Answers → Master → Position → Outcome
unfolding head_scanned scan
head_failed answers m p = head_scanned m (scan answers head_state m.tail p.after (p.current ∷ []))

-- The case of a failed tail: the chain shrinks from the back.
unfoldable pub tail_failed : Answers → Master → Position → Outcome
unfolding tail_scanned scan
tail_failed answers m p = tail_scanned m (scan answers tail_state m.head p.before (p.current ∷ []))

pub data Probe : Type 0 where
  alive : ℕ → List ℕ → Probe
  endpoint_failed : List ℕ → ℕ → List ℕ → Probe
  past_end : Probe

-- The loop for a failed node in the middle, in one direction: the first node ahead that answers a
-- heartbeat. `passed` are the nodes behind, nearest first, for the iterator at a failed endpoint.
unfoldable pub probe : Answers → Option ℕ → List ℕ → List ℕ → List ℕ → Probe
probe answers endpoint passed [] drop_list = past_end
probe answers endpoint passed (n ∷ ahead) drop_list =
    let further = probe answers endpoint (n ∷ passed) ahead (drop_list ++ n ∷ []) in
    if is_ok (answers.heartbeat n)
    then alive n drop_list
    else if points_at endpoint n
    then endpoint_failed passed n ahead
    else further

-- The two calls of `ChangeMode` that join the nodes on both sides of the gap, downstream first.
unfoldable pub join : Answers → Master → ℕ → ℕ → List ℕ → Outcome
unfolding drop
join answers m down up drop_list =
    let (down_status, down_reply) = answers.change_mode down (record {
      prev_addr = some (address m.node up);
      next_addr = none;
      new_state = (m.node down).state;
      last_seq_num = 0;
    }) in
    let (up_status, up_reply) = answers.change_mode up (record {
      prev_addr = none;
      next_addr = some (address m.node down);
      new_state = (m.node up).state;
      last_seq_num = down_reply.last_received_seq_num;
    }) in
    if is_ok down_status
    then (if is_ok up_status then returns (drop m drop_list) true else returns m false)
    else returns m false

-- The call for a failed endpoint, after which the call for the middle node returns -1.
unfoldable pub with_failure : Outcome → Outcome
with_failure fault = fault
with_failure (returns m code) = returns m false

module _ (answers : Answers) (manage_endpoint : Master → Position → Outcome) where
  unfoldable pub probed_up : Master → Position → ℕ → Probe → Outcome
  unfolding join with_failure
  probed_up m p down (alive up drop_list) = join answers m down up drop_list
  probed_up m p down (endpoint_failed passed n ahead) =
      with_failure (manage_endpoint m (record { before = ahead; current = n; after = passed }))
  probed_up m p down past_end = fault

  unfoldable pub probed_down : Master → Position → Probe → Outcome
  unfolding probed_up with_failure probe
  probed_down m p (alive down drop_list) =
      probed_up m p down (probe answers m.head (p.current ∷ p.after) p.before drop_list)
  probed_down m p (endpoint_failed passed n ahead) =
      with_failure (manage_endpoint m (record { before = passed; current = n; after = ahead }))
  probed_down m p past_end = fault

  unfoldable pub middle_failed : Master → Position → Outcome
  unfolding probed_down probe
  middle_failed m p =
      probed_down m p (probe answers m.tail (p.current ∷ p.before) p.after (p.current ∷ []))

-- The `switch` on the state of the failed node.
unfoldable pub manage_state :
    Answers → (Master → Position → Outcome) → State → Master → Position → Outcome
unfolding head_failed tail_failed middle_failed drop
manage_state answers again single_state m p = returns (drop m (p.current ∷ [])) true
manage_state answers again head_state m p = head_failed answers m p
manage_state answers again tail_state m p = tail_failed answers m p
manage_state answers again middle_state m p = middle_failed answers again m p
manage_state answers again initialize_state m p = returns (drop m (p.current ∷ [])) true
manage_state answers again transition_state m p = returns (drop m (p.current ∷ [])) true

-- The fuel bounds the depth of the calls: a failed middle node may call for a failed endpoint.
unfoldable pub manage_failure : ℕ → Answers → Master → Position → Outcome
unfolding manage_state
manage_failure zero answers m p = fault
manage_failure (suc fuel) answers m p =
    manage_state answers (manage_failure fuel answers) (m.node p.current).state m p
