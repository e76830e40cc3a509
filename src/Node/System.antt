-- ===== src/Node/System.antt =====
-- The nodes of a chain with the writes that they pass on (src/server_main.cpp,
-- `relay_write_background`, and src/interfaceImpl/serverService).
pub mod History
pub mod Agreement
use chained_block_storage.Base.{ℕ, ◌≡◌, Bool, ◌==◌, if◌then◌else◌}
use chained_block_storage.Tables.PendingQueue
use chained_block_storage.Node.{Storage, Node, relaying}
use chained_block_storage.Node.Handlers.{WriteRequest, RelayWriteRequest, relay_write}
use chained_block_storage.Node.Steps.{
  Event, client_write, upstream_write, relay_round, ack_round, downstream_ack, log_ack, changed,
  perform,
}

-- The request that passes an entry on.
unfoldable pub request_of : PendingQueue.Entry → RelayWriteRequest
request_of e = record {
  write = record { bytes = e.bytes; offset = e.volume_offset; req_id = e.req_id };
  seq_num = e.seq_num;
}

-- The nodes by their names, of which 0 is the one that clients write to.
abbrev pub Nodes : Type 0 → Type 0
Nodes V = ℕ → Node V

abbrev pub set_node : {V : Type 0} → Nodes V → ℕ → Node V → Nodes V
set_node s i n j = if j == i then n else s j

-- An event that is no write of a client or of another node.
abbrev pub Local : Event → Type 0
Local (client_write r) = ⊥
Local (upstream_write r) = ⊥
Local (relay_round answer) = Unit
Local ack_round = Unit
Local (downstream_ack s) = Unit
Local (log_ack id) = Unit
Local (changed state up down) = Unit

module _ {V : Type 0} (storage : Storage V) (crashes : ℕ → Bool) where
  -- A client writes to the first node; a node does something by itself; or the call of a node that relays
  -- an entry reaches another. Whom a node calls, what answer it takes and how often it repeats the
  -- call are left open, and so is what the master changes. Calls of Restore, of UpdateReplayLog and of
  -- the resend of ChangeMode are no steps.
  pub data Step (s : Nodes V) : Nodes V → Type 0 where
    client :
        (r : WriteRequest) → Step s (set_node s 0 (perform storage crashes (client_write r) (s 0)))
    local : (i : ℕ) (e : Event) → Local e → Step s (set_node s i (perform storage crashes e (s i)))
    relays :
        (i j : ℕ) (e : PendingQueue.Entry)
        → (s i).relay ≡ relaying e
        → Step s (set_node s j (perform storage crashes (upstream_write (request_of e)) (s j)))

  pub data Reached (s : Nodes V) : Nodes V → Type 0 where
    here : Reached s s
    after : (t u : Nodes V) → Reached s t → Step t u → Reached s u
