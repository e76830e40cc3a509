-- ===== src/Node/Background.antt =====
-- The loops of a node that run beside its handlers (src/server_main.cpp).
use chained_block_storage.Base.{ℕ, ◌+◌, Bool, none, some, ◌==◌, if◌then◌else◌}
use chained_block_storage.Protocol.{Status, is_ok}
use chained_block_storage.Tables.Request.{ok, throws}
use chained_block_storage.Tables.Int.{to_int}
use chained_block_storage.Tables.PendingQueue
use chained_block_storage.Tables.SentList
use chained_block_storage.Node.{
  Storage, Node, Relay, looking, stopped, relaying, storing, is_end, add_one, long_to_int,
}
use chained_block_storage.Node.Handlers.{commit_sent}

-- `crashes` says if `Crash::check` ends the process at an offset.
module _ {V : Type 0} (storage : Storage V) (crashes : ℕ → Bool) where
  -- The writing of an entry that has been relayed. An exception of the sent list would end the
  -- process, as the loop catches none.
  unfoldable pub store : Node V → PendingQueue.Entry → Node V
  unfolding SentList.push_entry
  store n e =
      let written : Node V = record n {
        volume = storage.write e.bytes e.volume_offset e.seq_num n.volume;
        write_seq = n.write_seq + 1;
      } in
      let sent_entry : SentList.SentEntry = record {
        req_id = e.req_id;
        volume_offset = e.volume_offset;
      } in
      let kept : Node V = elim (SentList.push_entry n.sent (to_int e.seq_num) sent_entry) [
        | ok sent ↦ record written { sent = sent; relay = looking }
        | throws x ↦ record written { relay = stopped }
      ] in
      if crashes e.volume_offset then record n { relay = stopped } else kept

  -- The head of the queue is taken once its number is the next.
  unfoldable pub take_next : Node V → Node V
  unfolding PendingQueue.peek_entry PendingQueue.pop_entry
  take_next n = elim (PendingQueue.pop_entry n.pending) [
    | none ↦ n
    | some (e, q) ↦
        if e.seq_num == n.write_seq + 1 then record n { pending = q; relay = relaying e } else n
  ]

  -- A step of `relay_write_background` from where the loop is at, with the answer of the next node
  -- downstream if it is called.
  unfoldable pub relay_step_at : Node V → Status → Relay → Node V
  unfolding take_next store
  relay_step_at n answer looking = take_next n
  relay_step_at n answer stopped = n
  relay_step_at n answer (relaying e) =
      if is_end n.state
      then record n { relay = storing e }
      else if is_ok answer
      then record n { relay = storing e }
      else n
  relay_step_at n answer (storing e) = store n e

  unfoldable pub relay_write_step : Node V → Status → Node V
  unfolding relay_step_at
  relay_write_step n answer = relay_step_at n answer n.relay

  -- A round of `relay_write_ack_background`, which catches what the sent list throws, before the
  -- number is passed on upstream.
  unfoldable pub relay_write_ack_step : Node V → Node V
  unfolding commit_sent add_one long_to_int
  relay_write_ack_step n =
      let s = add_one n.commit_seq in
      let done : Node V = elim (commit_sent storage n (long_to_int s) s s) [
        | throws x ↦ n
        | ok n' ↦ n'
      ] in
      if is_end n.state then done else n
