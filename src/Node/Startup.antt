-- ===== src/Node/Startup.antt =====
-- The start of a node: `main` and `register_server` (src/server_main.cpp).
use chained_block_storage.Base.{◌+◌, refl, true, false, Option, none, some, [], arith}
use chained_block_storage.Protocol.{tail_state, single_state, initialize_state, ServerIp}
use chained_block_storage.Tables.Int.{pos, negsuc}
use chained_block_storage.Tables.PendingQueue
use chained_block_storage.OrderedMap
use chained_block_storage.Node.{Storage, Node, Peer, looking}
use chained_block_storage.Node.Steps.{Sound}

unfoldable pub no_peer : Peer
no_peer = record { addr = record { ip = []; port = negsuc 0 }; has_stub = false }

module _ {V : Type 0} (storage : Storage V) where
  -- The node when its threads start, with an opened volume.
  unfoldable pub start : V → Node V
  unfolding no_peer PendingQueue.empty
  start v =
      let s = storage.get_sequence_number v in
      record {
        state = initialize_state;
        upstream = no_peer;
        downstream = no_peer;
        current_seq = s + 1;
        write_seq = s;
        commit_seq = pos s;
        pending = PendingQueue.empty;
        sent = [];
        log = [];
        volume = v;
        relay = looking;
        mode_locked = false;
      }

  -- What `register_server` does with the answer to `Register`, on the node as it is then: the tail behind
  -- the old tail, if the reply names it, and a single server otherwise. Before it answers a tail, the
  -- calls of `Restore` and `UpdateReplayLog` have changed the node, so that it is not `start` then.
  unfoldable pub registered : Node V → Option ServerIp → Node V
  unfolding no_peer
  registered n none = record n { state = single_state; upstream = no_peer; downstream = no_peer }
  registered n (some a) = record n {
    state = tail_state;
    upstream = record { addr = a; has_stub = true };
    downstream = no_peer;
  }

  pub start-Sound : (v : V) → Sound (registered (start v) none) (storage.get_sequence_number v)
  unfolding start registered OrderedMap.find
  start-Sound v = record {
    commits = refl;
    behind = omega arith;
    ordered = tt;
    between = λ k e found. absurd (cc);
    in_hand = tt;
  }
