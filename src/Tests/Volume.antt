-- ===== src/Tests/Volume.antt =====
-- A node over the copy-on-write storage (src/server_main.cpp over src/storage.cpp) at fixed inputs.
use chained_block_storage.Base.{
  ℕ, ◌+◌, ◌*◌, ◌^◌, ◌<◌, ◌≤◌, refl, Bool, false, Option, none, some, List, [], ◌∷◌, arith,
}
use chained_block_storage.Protocol.{ok}
use chained_block_storage.AtomicStorage.Block.{zero_block}
use chained_block_storage.AtomicStorage.State.{Volume}
use chained_block_storage.AtomicStorage.Commit.{get_sequence_number}
use chained_block_storage.AtomicStorage.Open.{init_volume, close_volume}
use chained_block_storage.AtomicStorage.Versions.Disk.{Disk}
use chained_block_storage.AtomicStorage.Versions.Reads.{init_volume-Implements}
use chained_block_storage.Node.{Storage, Node}
use chained_block_storage.Node.Handlers.{WriteRequest, entry_of}
use chained_block_storage.Node.Volume.{atomic_storage}
use chained_block_storage.Node.Startup.{start, registered}
use chained_block_storage.Node.Steps.{Event, client_write, relay_round, ack_round, run}
use chained_block_storage.Node.Contents.{Ran, run-started}

abbrev unused_volume : Volume
unused_volume = record {
  file = λ _. zero_block;
  last_committed = 0;
  first_level_blocks = λ _. 0;
  uncommitted_writes = λ _. none;
  pending_blocks = λ _. none;
  free_blocks = [];
  num_total_blocks = 0;
}

abbrev new_volume : Volume
new_volume = init_volume (close_volume unused_volume) (λ _. zero_block) 4096

abbrev zeros : Disk
zeros = record { committed = λ _. zero_block; waiting = [] }

abbrev high_numbers : ℕ → ℕ → ℕ
high_numbers s i = 2 ^ 50

abbrev no_bytes : ℕ → ℕ → ℕ
no_bytes s q = 0

abbrev none_modified : ℕ → Option Volume → List (ℕ × ℕ)
none_modified s v = []

abbrev safe : ℕ → Bool
safe offset = false

abbrev volume_storage : Storage (Option Volume)
volume_storage = atomic_storage high_numbers no_bytes none_modified

abbrev request : WriteRequest
request = record {
  bytes = b'x' ∷ [];
  offset = 4096;
  req_id = record { ip = b'a' ∷ []; pid = 42; timestamp = record { seconds = 10; nanos = 0 } };
}

abbrev one_write : List Event
one_write = client_write request ∷ relay_round ok ∷ relay_round ok ∷ relay_round ok ∷ ack_round ∷ []

abbrev new_node : Node (Option Volume)
new_node = registered volume_storage (start volume_storage (some new_volume)) none

one_write-small : (run volume_storage safe one_write new_node).write_seq + 1 < 2 ^ 31
unfolding run start registered get_sequence_number init_volume
one_write-small = ground arith

new_volume-small :
    new_volume.num_total_blocks + 4 * (run volume_storage safe one_write new_node).write_seq
    ≤ 2 ^ 30 + 4 * new_volume.last_committed
unfolding run start registered get_sequence_number init_volume
new_volume-small = ground arith

run-started_example :
    Ran high_numbers no_bytes none_modified new_volume.last_committed new_volume.last_committed
      zeros
      (run volume_storage safe one_write new_node)
unfolding entry_of
run-started_example =
    run-started high_numbers no_bytes none_modified (2 ^ 30) (λ s i. (omega arith, omega arith))
      (omega arith) safe new_volume (λ _. zero_block) one_write
      (init_volume-Implements unused_volume (λ _. zero_block) 4096 (omega arith))
      ((λ s. (refl, omega arith)), (tt, (tt, (tt, (tt, tt))))) one_write-small new_volume-small
