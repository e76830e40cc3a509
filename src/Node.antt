-- ===== src/Node.antt =====
-- A server node (src/server_main.cpp, src/interfaceImpl/serverService): its state, and the storage
-- behind it as an interface. Handlers are the calls of clients and of other nodes, Background the
-- two loops that run beside them, Steps their interleavings, Startup the start of the process,
-- ChangeMode what the master asks, Checksum the check of the chain.
pub mod Handlers
pub mod Background
pub mod Steps
pub mod Entries
pub mod Order
pub mod Interleaving
pub mod Startup
pub mod Volume
pub mod Contents
pub mod Progress
pub mod Served
pub mod Arguments
pub mod System
pub mod Numbering
pub mod Promotion
pub mod Overflow
pub mod ChangeMode
pub mod Checksum
use chained_block_storage.Base.{
  ℕ, zero, suc, ◌+◌, ◌-◌, ◌^◌, Bool, true, false, Option, none, some, List, ◌==◌, if◌then◌else◌,
}
use chained_block_storage.Protocol.{
  State, head_state, tail_state, middle_state, single_state, initialize_state, transition_state,
  ServerIp,
}
use chained_block_storage.Tables.Request.{ClientRequestId}
use chained_block_storage.Tables.Int.{ℤ, pos, negsuc, to_int}
use chained_block_storage.Tables.PendingQueue
use chained_block_storage.Tables.SentList.{SentList}
use chained_block_storage.Tables.ReplayLog.{ReplayLog}

-- The calls of src/headers/storage.hpp that a node makes, on volumes of some type. `commit` takes a
-- sequence number of type `long`.
pub record Storage (V : Type 0) : Type 0 where
  pub write : List ℕ → ℕ → ℕ → V → V
  pub commit : ℤ → ℕ → V → V
  pub read : ℕ → V → List ℕ
  pub read_sequence_number : ℤ → ℕ → V → Option (List ℕ)
  pub get_modified_offsets : ℕ → V → List (ℕ × ℕ)
  pub get_sequence_number : V → ℕ

-- `server::Node`: a neighbour, and whether there is a stub to call it.
pub record Peer : Type 0 where
  pub addr : ServerIp
  pub has_stub : Bool

-- What the loop of `relay_write_background` is at: it looks at the queue; it relays a write that it
-- took; it is about to store it; or the process has ended.
pub data Relay : Type 0 where
  looking stopped : Relay
  relaying storing : PendingQueue.Entry → Relay

-- The globals of `server` and `Tables`, and the volume; `mode_locked` is `changemode_mtx`.
pub record Node (V : Type 0) : Type 0 where
  pub state : State
  pub upstream : Peer
  pub downstream : Peer
  pub current_seq : ℕ
  pub write_seq : ℕ
  pub commit_seq : ℤ
  pub pending : PendingQueue.PendingQueue
  pub sent : SentList
  pub log : ReplayLog
  pub volume : V
  pub relay : Relay
  pub mode_locked : Bool

-- `state == TAIL || state == SINGLE`.
unfoldable pub is_end : State → Bool
is_end head_state = false
is_end tail_state = true
is_end middle_state = false
is_end single_state = true
is_end initialize_state = false
is_end transition_state = false

-- `state == HEAD || state == SINGLE`.
unfoldable pub is_front : State → Bool
is_front head_state = true
is_front tail_state = false
is_front middle_state = false
is_front single_state = true
is_front initialize_state = false
is_front transition_state = false

unfoldable pub add_one : ℤ → ℤ
add_one (pos n) = pos (n + 1)
add_one (negsuc zero) = pos 0
add_one (negsuc (suc n)) = negsuc n

-- A `long` where the code compares it with a `uint64`.
unfoldable pub as_uint64 : ℤ → ℕ
as_uint64 (pos n) = n
as_uint64 (negsuc n) = 2 ^ 64 - (n + 1)

-- The conversion of a `long` to an `int`.
unfoldable pub long_to_int : ℤ → ℤ
unfolding as_uint64
long_to_int z = to_int (as_uint64 z)
