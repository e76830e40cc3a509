-- ===== src/Tables/PendingQueue.antt =====
-- `Tables::PendingQueue` (src/tablesImpl/pendingQueue.cpp): writes that wait for their turn.
-- The priority queue of the standard library is a list in rising order of sequence number, so its
-- top is the head; the set of ints holds the low 32 bits of the numbers that wait.
pub mod Count
pub mod Validity
pub mod Drain
use chained_block_storage.Base.{
  ℕ, ◌≡◌, Bool, true, false, ◌||◌, Option, none, some, List, [], ◌∷◌, length, ltb, ◌==◌,
  if◌then◌else◌,
}
use chained_block_storage.Tables.Request.{ClientRequestId, Result, ok, throws, Exception, int_bits}

-- `pendingQueueEntry`, with sequence numbers and offsets that are not negative.
pub record Entry : Type 0 where
  pub seq_num : ℕ
  pub volume_offset : ℕ
  pub bytes : List ℕ
  pub req_id : ClientRequestId

pub record PendingQueue : Type 0 where
  pub queue : List Entry
  pub seq_num_set : List ℕ

unfoldable pub empty : PendingQueue
empty = record { queue = []; seq_num_set = [] }

unfoldable pub contains : ℕ → List ℕ → Bool
contains k [] = false
contains k (x ∷ xs) = x == k || contains k xs

unfoldable pub remove : ℕ → List ℕ → List ℕ
remove k [] = []
remove k (x ∷ xs) = if x == k then xs else x ∷ remove k xs

-- `queue.push`: a smaller sequence number comes first (`operator<` is turned round).
unfoldable pub insert_entry : Entry → List Entry → List Entry
insert_entry e [] = e ∷ []
insert_entry e (x ∷ xs) = if ltb e.seq_num x.seq_num then e ∷ x ∷ xs else x ∷ insert_entry e xs

unfoldable pub push_entry : PendingQueue → Entry → Result PendingQueue
unfolding contains insert_entry
push_entry q e =
    if contains (int_bits e.seq_num) q.seq_num_set
    then throws Exception.invalid_argument
    else ok (record {
      queue = insert_entry e q.queue;
      seq_num_set = int_bits e.seq_num ∷ q.seq_num_set;
    })

-- `none` is the `top()` of an empty queue, which is undefined behaviour.
unfoldable pub pop_entry : PendingQueue → Option (Entry × PendingQueue)
unfolding remove
pop_entry q = elim q.queue [
  | [] ↦ none
  | e ∷ rest ↦
      some (e, record { queue = rest; seq_num_set = remove (int_bits e.seq_num) q.seq_num_set })
]

unfoldable pub peek_entry : PendingQueue → Option Entry
peek_entry q = elim q.queue [ [] ↦ none | e ∷ rest ↦ some e ]

unfoldable pub get_queue_size : PendingQueue → ℕ
get_queue_size q = length q.queue
