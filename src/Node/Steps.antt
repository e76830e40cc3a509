-- ===== src/Node/Steps.antt =====
-- The interleavings of a node: its handlers and the rounds of its loops, in any order, and what they
-- ask of the volume.
use chained_block_storage.Base.{ℕ, ◌+◌, ◌≤◌, ◌<◌, ◌≡◌, Bool, some, List, [], ◌∷◌, All}
use chained_block_storage.Protocol.{State, Status}
use chained_block_storage.Tables.Request.{ClientRequestId}
use chained_block_storage.Tables.Int.{ℤ, pos}
use chained_block_storage.Tables.PendingQueue
use chained_block_storage.Tables.SentList.{SentEntry, SentList}
use chained_block_storage.Tables.SentList.Laws.{IsOrdered, lookup}
use chained_block_storage.Node.{Storage, Node, Peer, Relay, looking, stopped, relaying, storing}
use chained_block_storage.Node.Handlers.{
  WriteRequest, RelayWriteRequest, entry_of, write, relay_write, relay_write_ack, ack_replay_log,
}
use chained_block_storage.Node.Background.{relay_write_step, relay_write_ack_step}

-- `changed` is the part of `ChangeMode` that the node's own loops see: its state and neighbours.
pub data Event : Type 0 where
  client_write : WriteRequest → Event
  upstream_write : RelayWriteRequest → Event
  relay_round : Status → Event
  ack_round : Event
  downstream_ack : ℕ → Event
  log_ack : ClientRequestId → Event
  changed : State → Peer → Peer → Event

-- A call that stores or commits a write.
pub data Op : Type 0 where
  wrote : PendingQueue.Entry → Op
  committed : ℤ → ℕ → Op

module _ {V : Type 0} (storage : Storage V) where
  abbrev pub apply : List Op → V → V
  apply [] v = v
  apply (wrote e ∷ ops) v = apply ops (storage.write e.bytes e.volume_offset e.seq_num v)
  apply (committed s offset ∷ ops) v = apply ops (storage.commit s offset v)

  module _ (crashes : ℕ → Bool) where
    unfoldable pub perform : Event → Node V → Node V
    unfolding write relay_write relay_write_step relay_write_ack_step relay_write_ack ack_replay_log
    perform (client_write r) n = (write n r).0
    perform (upstream_write r) n = (relay_write n r).0
    perform (relay_round answer) n = relay_write_step storage crashes n answer
    perform ack_round n = relay_write_ack_step storage crashes n
    perform (downstream_ack s) n = (relay_write_ack storage n s).0
    perform (log_ack id) n = ack_replay_log n id
    perform (changed s up down) n = record n { state = s; upstream = up; downstream = down }

    unfoldable pub run : List Event → Node V → Node V
    unfolding perform
    run [] n = n
    run (e ∷ es) n = run es (perform e n)

-- From the numbers `c` and `w` of the last commit and the last write to `c'` and `w'`: the writes
-- have the numbers after `w`, the commits those after `c`, each in order and without a gap, and no
-- commit comes before the write of its number.
abbrev pub Orderly : ℕ → ℕ → List Op → ℕ → ℕ → Type 0
Orderly c w [] c' w' = (c ≡ c') × (w ≡ w')
Orderly c w (wrote e ∷ ops) c' w' = (e.seq_num ≡ w + 1) × Orderly c (w + 1) ops c' w'
Orderly c w (committed s offset ∷ ops) c' w' =
    (s ≡ pos (c + 1)) × (c < w) × Orderly (c + 1) w ops c' w'

-- The number that a relay has in hand.
abbrev pub InHand : ℕ → Relay → Type 0
InHand w looking = Unit
InHand w stopped = Unit
InHand w (relaying e) = e.seq_num ≡ w + 1
InHand w (storing e) = e.seq_num ≡ w + 1

-- A key of the sent list is a number after the last commit and up to the last write.
abbrev pub Between : ℕ → ℕ → SentList → Type 0
Between c w sent =
    (k : ℤ) (e : SentEntry) → lookup k sent ≡ some e → (j : ℕ) × (k ≡ pos j) × (c < j) × (j ≤ w)

pub record Sound {V : Type 0} (n : Node V) (c : ℕ) : Type 0 where
  pub commits : n.commit_seq ≡ pos c
  pub behind : c ≤ n.write_seq
  pub ordered : IsOrdered n.sent
  pub between : Between c n.write_seq n.sent
  pub in_hand : InHand n.write_seq n.relay

-- Something of each entry that is written.
abbrev pub AllWrote : (PendingQueue.Entry → Type 0) → List Op → Type 0
AllWrote P [] = Unit
AllWrote P (wrote e ∷ ops) = P e × AllWrote P ops
AllWrote P (committed s offset ∷ ops) = AllWrote P ops

abbrev pub OfRelay : (PendingQueue.Entry → Type 0) → Relay → Type 0
OfRelay P looking = Unit
OfRelay P stopped = Unit
OfRelay P (relaying e) = P e
OfRelay P (storing e) = P e

-- The same of the entries that wait in a node or that its relay has in hand.
abbrev pub Held : {V : Type 0} → (PendingQueue.Entry → Type 0) → Node V → Type 0
Held P n = All P n.pending.queue × OfRelay P n.relay

-- The same of the entry that an event brings, whatever number a client's write gets.
abbrev pub Brings : (PendingQueue.Entry → Type 0) → Event → Type 0
Brings P (client_write r) = (s : ℕ) → P (entry_of r s)
Brings P (upstream_write r) = P (entry_of r.write r.seq_num)
Brings P (relay_round answer) = Unit
Brings P ack_round = Unit
Brings P (downstream_ack s) = Unit
Brings P (log_ack id) = Unit
Brings P (changed state up down) = Unit
