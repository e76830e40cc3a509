-- ===== src/Tests/Master.antt =====
-- The master (src/master_main.cpp, src/interfaceImpl/masterService) at fixed inputs.
use chained_block_storage.Base.{
  ℕ, ◌≡◌, refl, inr, true, false, some, [], ◌∷◌, ◌==◌, if◌then◌else◌, arith,
}
use chained_block_storage.Tables.Int.{pos}
use chained_block_storage.Protocol.{
  State, head_state, tail_state, middle_state, ok, unavailable, other_error, is_ok,
}
use chained_block_storage.Master.Nodes.{Node, Master}
use chained_block_storage.Master.Failure.{
  Answers, head_failed, tail_failed, middle_failed, manage_failure,
}
use chained_block_storage.Master.Chain.{count, last, role, IsChain}
use chained_block_storage.Master.Chain.Positions.{rewind}
use chained_block_storage.Master.Chain.Repair.{Repaired, survivors, At-place}
use chained_block_storage.Master.Chain.Head.{head_failed-Repaired}
use chained_block_storage.Master.Chain.Tail.{tail_failed-Repaired}
use chained_block_storage.Master.Chain.Probes.{responding}
use chained_block_storage.Master.Chain.Middle.{
  Ends, Mended, middle_failed-Mended, manage_failure-IsChain,
}
use chained_block_storage.Master.Heartbeat.{KeepsChain, heartbeat_round, heartbeat_round-KeepsChain}
use chained_block_storage.Master.Registration.{RegisterRequest, waits, contact, register}
use chained_block_storage.Master.Registration.Joining.{Joined, register-Joined}
use chained_block_storage.Master.Registration.Abort.{register_after_abort}

abbrev node_in : State → Node
node_in s = record { ip = b'h' ∷ []; port = pos 5000; state = s }

abbrev state_of : ℕ → State
state_of n = if n == 0 then head_state else if n == 3 then tail_state else middle_state

-- The chain of the nodes 0, 1, 2 and 3.
abbrev four_nodes : Master
four_nodes = record {
  node = λ n. node_in (state_of n);
  node_list = 0 ∷ 1 ∷ 2 ∷ 3 ∷ [];
  head = some 0;
  tail = some 3;
  reg_locked = false;
  next_node = 4;
}

four_nodes-IsChain : IsChain four_nodes
unfolding role count last
four_nodes-IsChain = record {
  states = (refl, (refl, (refl, (refl, tt))));
  distinct = λ n. ground arith;
  ends = inr (refl, refl);
}

-- Every node answers, but for the second, which is not reached.
abbrev second_silent : Answers
second_silent = record {
  heartbeat = λ n. if n == 1 then unavailable else ok;
  change_mode =
      λ n request. (if n == 1 then unavailable else ok, record { last_received_seq_num = 7 });
}

-- The node behind the silent one takes the place of the head.
survivors_run : survivors second_silent head_state (1 ∷ 2 ∷ 3 ∷ []) ≡ 2 ∷ 3 ∷ []
unfolding survivors is_ok
survivors_run = refl

manage_failure-IsChain_example : Ends (
    manage_failure 2 second_silent four_nodes
      (record { before = 1 ∷ 0 ∷ []; current = 2; after = 3 ∷ [] }))
unfolding rewind
manage_failure-IsChain_example =
    manage_failure-IsChain 0 second_silent four_nodes (1 ∷ 0 ∷ []) 2 (3 ∷ []) four_nodes-IsChain
      refl

middle_failed-Mended_example :
    Mended second_silent four_nodes
      (responding second_silent (1 ∷ 0 ∷ []))
      (responding second_silent (3 ∷ []))
      (middle_failed second_silent
        (manage_failure 1 second_silent)
        four_nodes
        (record { before = 1 ∷ 0 ∷ []; current = 2; after = 3 ∷ [] }))
unfolding rewind
middle_failed-Mended_example =
    middle_failed-Mended 0 second_silent four_nodes 1 (0 ∷ []) 2 3 [] four_nodes-IsChain
      (At-place four_nodes (1 ∷ 0 ∷ []) 2 (3 ∷ []) four_nodes-IsChain refl)

head_failed-Repaired_example : Repaired (survivors second_silent head_state (1 ∷ 2 ∷ 3 ∷ [])) (
    head_failed second_silent four_nodes
      (record { before = []; current = 0; after = 1 ∷ 2 ∷ 3 ∷ [] }))
unfolding rewind
head_failed-Repaired_example =
    head_failed-Repaired second_silent four_nodes 0 1 (2 ∷ 3 ∷ [])
      (At-place four_nodes [] 0 (1 ∷ 2 ∷ 3 ∷ []) four_nodes-IsChain refl)

tail_failed-Repaired_example :
    Repaired (rewind (survivors second_silent tail_state (2 ∷ 1 ∷ 0 ∷ [])) []) (
      tail_failed second_silent four_nodes
        (record { before = 2 ∷ 1 ∷ 0 ∷ []; current = 3; after = [] }))
unfolding rewind
tail_failed-Repaired_example =
    tail_failed-Repaired second_silent four_nodes 3 2 (1 ∷ 0 ∷ [])
      (At-place four_nodes (2 ∷ 1 ∷ 0 ∷ []) 3 [] four_nodes-IsChain refl)

abbrev newcomer : RegisterRequest
newcomer = record { server_ip = record { ip = b'n' ∷ []; port = pos 6000 }; last_seq_num = 7 }

register-Joined_example :
    Joined four_nodes newcomer (register four_nodes newcomer (unavailable ∷ ok ∷ []) (ok ∷ []))
unfolding count contact
register-Joined_example =
    register-Joined four_nodes newcomer (unavailable ∷ ok ∷ []) (ok ∷ []) refl four_nodes-IsChain
      refl refl refl

-- The master behind a registration whose heartbeat failed.
abbrev after_abort : Master
after_abort = record four_nodes {
  node = λ k.
      if 4 == k
      then (record { ip = b'n' ∷ []; port = pos 6000; state = State.initialize_state })
      else node_in (state_of k);
  reg_locked = true;
  next_node = 5;
}

register_after_abort_example : register after_abort newcomer (ok ∷ []) (ok ∷ []) ≡ waits
unfolding register contact
register_after_abort_example =
    register_after_abort four_nodes newcomer (other_error ∷ []) [] after_abort refl newcomer
      (ok ∷ []) (ok ∷ [])

heartbeat_round-KeepsChain_example :
    KeepsChain second_silent.heartbeat second_silent four_nodes
      (heartbeat_round second_silent.heartbeat second_silent four_nodes)
heartbeat_round-KeepsChain_example =
    heartbeat_round-KeepsChain second_silent.heartbeat second_silent four_nodes four_nodes-IsChain
