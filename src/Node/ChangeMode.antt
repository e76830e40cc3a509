-- ===== src/Node/ChangeMode.antt =====
-- `MasterListener::ChangeMode` (src/interfaceImpl/serverService/MasterListenerImpl.cpp): the master
-- gives a node its state and its neighbours.
pub mod Laws
use chained_block_storage.Base.{
  ℕ, zero, ◌+◌, Bool, true, false, not, ◌&&◌, Option, none, some, List, [], ◌∷◌, ◌++◌, ◌==◌, map,
  if◌then◌else◌,
}
use chained_block_storage.Protocol.{
  State, head_state, tail_state, middle_state, single_state, initialize_state, transition_state,
  ServerIp, ChangeModeRequest,
}
use chained_block_storage.Tables.Request.{
  ClientRequestId, Timestamp, Result, ok, throws, Exception, invalid_argument, length_error,
}
use chained_block_storage.Tables.Int.{ℤ, pos, negsuc, to_int}
use chained_block_storage.Tables.SentList.{SentEntry, SentList, get_sent_list_range}
use chained_block_storage.Tables.ReplayLog.{LogEntry, get_relay_log_content}
use chained_block_storage.Node.{Storage, Node, Peer, is_end, as_uint64}
use chained_block_storage.Node.Handlers.{
  WriteRequest, RelayWriteRequest, RestoreEntry, Answer, replies, raises, waits, c_string,
}

-- What the call does besides the change of the node: calls to the node downstream, of which a resent
-- write is repeated until it is answered, and services started and stopped.
pub data Action : Type 0 where
  restores : List RestoreEntry → Action
  updates_replay_log : List LogEntry → Action
  resends : RelayWriteRequest → Action
  launches_head launches_tail kills_tail : Action

-- Equality of states, as the code compares them.
unfoldable pub same_state : State → State → Bool
same_state head_state head_state = true
same_state tail_state tail_state = true
same_state middle_state middle_state = true
same_state single_state single_state = true
same_state initialize_state initialize_state = true
same_state transition_state transition_state = true
same_state _ _ = false

unfoldable pub new_peer : Peer → Option ServerIp → Peer
new_peer p none = p
new_peer p (some a) = record { addr = a; has_stub = true }

unfoldable pub cleared : Peer
cleared = record { addr = record { ip = []; port = negsuc 0 }; has_stub = false }

-- The services that the `switch` on the new state starts and stops.
unfoldable pub services : State → State → List Action
services old single_state =
    (if same_state old head_state then [] else Action.launches_head ∷ [])
    ++ (if same_state old tail_state then [] else Action.launches_tail ∷ [])
services old head_state =
    if same_state old single_state then Action.kills_tail ∷ [] else Action.launches_head ∷ []
services old tail_state = if same_state old single_state then [] else Action.launches_tail ∷ []
services old middle_state = if same_state old tail_state then Action.kills_tail ∷ [] else []
services old initialize_state = []
services old transition_state = []

unfoldable pub clears_upstream : State → Bool
clears_upstream s = if same_state s single_state then true else same_state s head_state

unfoldable pub clears_downstream : State → Bool
clears_downstream s = if same_state s single_state then true else same_state s tail_state

module _ {V : Type 0} where
  -- `has_prev_addr` and `has_next_addr` at the start of the call.
  unfoldable pub with_peers : Node V → ChangeModeRequest → Node V
  unfolding new_peer
  with_peers n r = record n {
    upstream = new_peer n.upstream r.prev_addr;
    downstream = new_peer n.downstream r.next_addr;
  }

  -- The change to another state.
  unfoldable pub switched : Node V → State → Node V
  unfolding clears_upstream clears_downstream cleared
  switched n s = record n {
    state = s;
    upstream = if clears_upstream s then cleared else n.upstream;
    downstream = if clears_downstream s then cleared else n.downstream;
  }

  module _ (storage : Storage V) where
    -- What a new tail is sent: the blocks that changed since its last number, and the replay log.
    unfoldable pub bring_up : Node V → ℕ → List Action
    unfolding c_string
    bring_up n last_seq_num =
        Action.restores (
          map
            (λ (p : ℕ × ℕ). record {
              bytes = c_string (storage.read p.0 n.volume);
              offset = p.0;
              seq_num = p.1;
            })
            (storage.get_modified_offsets last_seq_num n.volume))
        ∷ Action.updates_replay_log (get_relay_log_content n.log)
        ∷ []

    -- The loop over the writes to send again. The timestamp is assigned to a copy, so that the request
    -- has the default one.
    unfoldable pub resend : V → SentList → List Action
    unfolding as_uint64
    resend v [] = []
    resend v ((k, e) ∷ list) =
        let rest = resend v list in
        elim (storage.read_sequence_number k e.volume_offset v) [
          | none ↦ rest
          | some bytes ↦
              Action.resends (record {
                write = record {
                  bytes = bytes;
                  offset = e.volume_offset;
                  req_id = record {
                    ip = e.req_id.ip;
                    pid = e.req_id.pid;
                    timestamp = record { seconds = 0; nanos = 0 };
                  };
                };
                seq_num = as_uint64 k;
              })
              ∷ rest
        ]

    -- A node whose state stays: its neighbour in the middle of the chain has failed. An exception that
    -- is not a `length_error` leaves the call with the lock held.
    unfoldable pub reconnect : Node V → ChangeModeRequest → Node V × List Action × Answer ℕ
    unfolding resend
    reconnect n r =
        let seq : ℕ = elim r.prev_addr [ none ↦ 0 | some _ ↦ n.write_seq ] in
        elim r.next_addr [
          | none ↦ (record n { mode_locked = false }, [], replies seq)
          | some _ ↦ elim (get_sent_list_range n.sent (to_int (r.last_seq_num + 1))) [
            | ok list ↦ (record n { mode_locked = false }, resend n.volume list, replies seq)
            | throws length_error ↦ (record n { mode_locked = false }, [], replies seq)
            | throws invalid_argument ↦ (n, [], raises invalid_argument)
          ]
        ]

    -- The call, with what it does and its reply, `last_received_seq_num`.
    unfoldable pub change_mode : Node V → ChangeModeRequest → Node V × List Action × Answer ℕ
    unfolding with_peers switched bring_up reconnect services same_state
    change_mode n r =
        let m : Node V = record (with_peers n r) { mode_locked = true } in
        let before =
          if is_end n.state && not (is_end r.new_state) then bring_up m r.last_seq_num else [] in
        let moved : Node V = switched (record m { mode_locked = false }) r.new_state in
        let result : Node V × List Action × Answer ℕ =
          if same_state r.new_state n.state
          then reconnect m r
          else (moved, before ++ services n.state r.new_state, replies 0) in
        if n.mode_locked then (n, [], waits) else result
