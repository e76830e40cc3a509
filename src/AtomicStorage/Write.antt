-- ===== src/AtomicStorage/Write.antt =====
-- The writes of the storage (src/storage.cpp). Nothing that is in use is overwritten: the blocks on
-- the way to a new block are written anew, and the new root is kept for the commit.
pub mod Aligned
pub mod Rerouted
pub mod NewVersion
pub mod Contents
pub mod Uninitialised
pub mod Blocks
use chained_block_storage.Base.{
  ℕ, zero, suc, ◌+◌, ◌-◌, ◌%◌, Bool, true, false, Option, none, some, List, [], ◌∷◌, ◌++◌, ◌==◌,
  if◌then◌else◌,
}
use chained_block_storage.AtomicStorage.Block.{
  Block, block_size, zero_block, copy, get_word, set_word, file_block_num, set_entry,
}
use chained_block_storage.AtomicStorage.Index.{
  get_first_level, get_second_level, get_third_level, get_last_level,
}
use chained_block_storage.AtomicStorage.State.{
  File, UncommittedWrite, Volume, assign, write_block, child, leaf, read, get_free_block_num,
}

-- Row `i` of `offsets`, `old_block_nums` and `block`.
pub record BlockPath : Type 0 where
  pub offset_0 : ℕ
  pub offset_1 : ℕ
  pub offset_2 : ℕ
  pub offset_3 : ℕ
  pub old_0 : ℕ
  pub old_1 : ℕ
  pub old_2 : ℕ
  pub old_3 : ℕ
  pub block_0 : Block
  pub block_1 : Block
  pub block_2 : Block

-- The row as it is set up, which stays for a second block that is not there.
unfoldable pub no_path : BlockPath
no_path = record {
  offset_0 = 0;
  offset_1 = 0;
  offset_2 = 0;
  offset_3 = 0;
  old_0 = 0;
  old_1 = 0;
  old_2 = 0;
  old_3 = 0;
  block_0 = zero_block;
  block_1 = zero_block;
  block_2 = zero_block;
}

-- The copy of a block of numbers in memory, which stays zero where there is none.
unfoldable pub loaded : File → ℕ → Block
loaded file n = if n == 0 then zero_block else file n

-- The loop that reads the blocks of numbers on the way to an offset.
unfoldable pub read_path : File → ℕ → ℕ → BlockPath
unfolding loaded child leaf
read_path file root offset =
    let n1 = child file root (get_second_level offset) in
    let n2 = child file n1 (get_third_level offset) in
    record {
      offset_0 = get_first_level offset;
      offset_1 = get_second_level offset;
      offset_2 = get_third_level offset;
      offset_3 = get_last_level offset;
      old_0 = root;
      old_1 = n1;
      old_2 = n2;
      old_3 = leaf file n2 (get_last_level offset);
      block_0 = loaded file root;
      block_1 = loaded file n1;
      block_2 = loaded file n2;
    }

-- `uncommitted_writes[sequence_number - 1]`.
unfoldable pub previous : Volume → ℕ → Option UncommittedWrite
previous v zero = none
previous v (suc s) = v.uncommitted_writes s

-- The roots that the write builds on, for its first and its second block.
unfoldable pub base_0 : Volume → ℕ → ℕ → ℕ
unfolding previous
base_0 v sequence_number offset = elim (previous v sequence_number) [
  | none ↦ v.first_level_blocks (get_first_level offset)
  | some uw ↦ uw.new_metadata_offset_0
]

unfoldable pub base_1 : Volume → ℕ → ℕ → ℕ
unfolding previous
base_1 v sequence_number offset = elim (previous v sequence_number) [
  | none ↦ v.first_level_blocks (get_first_level offset)
  | some uw ↦ uw.new_metadata_offset_1
]

-- One round of the loop that fills `to_free`.
unfoldable pub freed : ℕ → ℕ → List ℕ
freed n0 n1 =
    (if n0 == 0 then [] else n0 ∷ []) ++ (if n1 == 0 then [] else if n1 == n0 then [] else n1 ∷ [])

unfoldable pub to_free : BlockPath → BlockPath → List ℕ
unfolding freed
to_free p q =
    freed p.old_0 q.old_0 ++ freed p.old_1 q.old_1 ++ freed p.old_2 q.old_2 ++ freed p.old_3 q.old_3

-- One round of the loop for the new block numbers. With one block only and an index that is not 0,
-- the second number is what the memory holds, `garbage`.
unfoldable pub new_block_nums : Bool → ℕ → ℕ → ℕ → Volume → ℕ × ℕ × Volume
unfolding get_free_block_num
new_block_nums two garbage offset0 offset1 v =
    let (n, v1) = get_free_block_num v in
    let (k, v2) = get_free_block_num v1 in
    if offset0 == offset1 then (n, n, v1) else if two then (n, k, v2) else (n, garbage, v1)

-- The new block numbers of the three levels, those of the first block and those of the second.
pub record NewNums : Type 0 where
  pub new_0 : ℕ
  pub new_1 : ℕ
  pub new_2 : ℕ
  pub second_0 : ℕ
  pub second_1 : ℕ
  pub second_2 : ℕ

-- The blocks of numbers as they are updated in memory. Where the index of the second block on a level
-- is that of the first, both are in the first's copy.
unfoldable pub update_last : Bool → BlockPath → BlockPath → ℕ → ℕ → ℕ → BlockPath × BlockPath
update_last two p q file_offset_0 file_offset_1 sequence_number =
    let b = set_entry p.block_2 p.offset_3 file_offset_0 sequence_number in
    let shared = set_entry b q.offset_3 file_offset_1 sequence_number in
    let apart = set_entry q.block_2 q.offset_3 file_offset_1 sequence_number in
    if two
    then (if p.offset_2 == q.offset_2
        then (record p { block_2 = shared }, q)
        else (record p { block_2 = b }, record q { block_2 = apart }))
    else (record p { block_2 = b }, q)

unfoldable pub update_indirect_1 : Bool → NewNums → BlockPath × BlockPath → BlockPath × BlockPath
update_indirect_1 two new (p, q) =
    let b = set_word p.block_1 p.offset_2 new.new_2 in
    if two
    then (if p.offset_1 == q.offset_1
        then (record p { block_1 = set_word b q.offset_2 new.second_2 }, q)
        else (
          record p { block_1 = b },
          record q { block_1 = set_word q.block_1 q.offset_2 new.second_2 },
        ))
    else (record p { block_1 = b }, q)

unfoldable pub update_indirect_0 : Bool → NewNums → BlockPath × BlockPath → BlockPath × BlockPath
update_indirect_0 two new (p, q) =
    let b = set_word p.block_0 p.offset_1 new.new_1 in
    if two
    then (if p.offset_0 == q.offset_0
        then (record p { block_0 = set_word b q.offset_1 new.second_1 }, q)
        else (
          record p { block_0 = b },
          record q { block_0 = set_word q.block_0 q.offset_1 new.second_1 },
        ))
    else (record p { block_0 = b }, q)

-- One round of the loop that writes the new blocks: the writes to the file, in order.
unfoldable pub level_writes : ℕ → ℕ → ℕ → ℕ → Block → Block → List (ℕ × Block)
level_writes offset0 offset1 n0 n1 b0 b1 =
    (n0, b0) ∷ (if offset0 == offset1 then [] else (n1, b1) ∷ [])

unfoldable pub metadata_writes : NewNums → BlockPath → BlockPath → List (ℕ × Block)
unfolding level_writes
metadata_writes new p q =
    level_writes p.offset_0 q.offset_0 new.new_0 new.second_0 p.block_0 q.block_0
    ++ level_writes p.offset_1 q.offset_1 new.new_1 new.second_1 p.block_1 q.block_1
    ++ level_writes p.offset_2 q.offset_2 new.new_2 new.second_2 p.block_2 q.block_2

unfoldable pub write_blocks : List (ℕ × Block) → File → File
unfolding write_block
write_blocks [] file = file
write_blocks ((n, b) ∷ ws) file = write_blocks ws (write_block file n b)

-- `garbage` are the numbers that the memory of `new_block_nums[1]` holds before, for its levels 1
-- and 2; the first level has one place only, so that its number is always set.
unfoldable pub new_nums : Bool → (ℕ → ℕ) → BlockPath → BlockPath → Volume → NewNums × Volume
unfolding new_block_nums
new_nums two garbage p q v =
    let (a0, b0, v1) = new_block_nums two (garbage 0) p.offset_0 q.offset_0 v in
    let (a1, b1, v2) = new_block_nums two (garbage 1) p.offset_1 q.offset_1 v1 in
    let (a2, b2, v3) = new_block_nums two (garbage 2) p.offset_2 q.offset_2 v2 in
    (record { new_0 = a0; new_1 = a1; new_2 = a2; second_0 = b0; second_1 = b1; second_2 = b2 }, v3)

unfoldable pub updated : Bool → NewNums → BlockPath → BlockPath → ℕ → ℕ → ℕ → BlockPath × BlockPath
unfolding update_last update_indirect_1 update_indirect_0
updated two new p q file_offset_0 file_offset_1 sequence_number =
    update_indirect_0 two new
      (update_indirect_1 two new (update_last two p q file_offset_0 file_offset_1 sequence_number))

-- `write_metadata` from the new block numbers on.
unfoldable pub write_numbered :
    Bool → ℕ → ℕ → ℕ → BlockPath → BlockPath → NewNums × Volume → UncommittedWrite × Volume
unfolding to_free updated metadata_writes write_blocks
write_numbered two sequence_number file_offset_0 file_offset_1 p q (new, v) =
    let (p1, q1) = updated two new p q file_offset_0 file_offset_1 sequence_number in
    (
      record {
        to_free = to_free p q;
        new_metadata_offset_0 = new.new_0;
        new_metadata_offset_1 = new.second_0;
      },
      record v { file = write_blocks (metadata_writes new p1 q1) v.file },
    )

-- The same from the paths of the blocks on.
unfoldable pub write_paths :
    Bool → (ℕ → ℕ) → Volume → ℕ → ℕ → ℕ → BlockPath → BlockPath → UncommittedWrite × Volume
unfolding new_nums write_numbered
write_paths two garbage v sequence_number file_offset_0 file_offset_1 p q =
    write_numbered two sequence_number file_offset_0 file_offset_1 p q (new_nums two garbage p q v)

-- The same from the first offset on, by whether the write has one block.
unfoldable pub metadata_by : Bool → (ℕ → ℕ) → Volume → ℕ → ℕ → ℕ → ℕ → UncommittedWrite × Volume
metadata_by true garbage v sequence_number file_offset_0 file_offset_1 o =
    write_paths false garbage v sequence_number file_offset_0 file_offset_1
      (read_path v.file (base_0 v sequence_number o) o) no_path
metadata_by false garbage v sequence_number file_offset_0 file_offset_1 o =
    write_paths true garbage v sequence_number file_offset_0 file_offset_1
      (read_path v.file (base_0 v sequence_number o) o)
      (read_path v.file (base_1 v sequence_number (o + block_size)) (o + block_size))

-- `write_metadata`: the new entry of `uncommitted_writes`, and the volume.
unfoldable pub write_metadata : (ℕ → ℕ) → Volume → ℕ → ℕ → ℕ → ℕ → UncommittedWrite × Volume
write_metadata garbage v sequence_number file_offset_0 file_offset_1 offset =
    metadata_by (offset % block_size == 0) garbage v sequence_number file_offset_0 file_offset_1
      (offset - offset % block_size)

-- A block of data goes to a free block, which is pending for its offset.
unfoldable pub put_data : Volume → ℕ → Block → ℕ × Volume
unfolding get_free_block_num write_block assign
put_data v offset b =
    let (n, v1) = get_free_block_num v in
    (
      n,
      record v1 {
        file = write_block v1.file n b;
        pending_blocks = assign v1.pending_blocks offset (some n);
      },
    )

-- A part of a block of data: the rest is read. The number is taken before the read.
unfoldable pub put_part : Volume → ℕ → ℕ → Block → ℕ → ℕ → ℕ × Volume
unfolding get_free_block_num write_block assign copy read
put_part v offset at buf from n =
    let (k, v1) = get_free_block_num v in
    let b = copy (read v1 offset zero_block) at buf from n in
    (
      k,
      record v1 {
        file = write_block v1.file k b;
        pending_blocks = assign v1.pending_blocks offset (some k);
      },
    )

unfoldable pub recorded : Volume → ℕ → UncommittedWrite → Volume
unfolding assign
recorded v sequence_number uw = record v {
  uncommitted_writes = assign v.uncommitted_writes sequence_number (some uw);
}

unfoldable pub write_aligned : (ℕ → ℕ) → Volume → Block → ℕ → ℕ → Volume
write_aligned garbage v buf offset sequence_number =
    let (n, v1) = put_data v offset buf in
    let (uw, v2) = write_metadata garbage v1 sequence_number n 0 offset in
    recorded v2 sequence_number uw

unfoldable pub write_unaligned : (ℕ → ℕ) → Volume → Block → ℕ → ℕ → Volume
write_unaligned garbage v buf offset sequence_number =
    let remainder = offset % block_size in
    let start = offset - remainder in
    let (n0, v1) = put_part v start remainder buf 0 (block_size - remainder) in
    let (n1, v2) = put_part v1 (start + block_size) 0 buf (block_size - remainder) remainder in
    let (uw, v3) = write_metadata garbage v2 sequence_number n0 n1 offset in
    recorded v3 sequence_number uw

-- `write`. For an aligned offset the second number is -1, which nothing reads.
unfoldable pub write : (ℕ → ℕ) → Volume → Block → ℕ → ℕ → Volume
write garbage v buf offset sequence_number =
    if offset % block_size == 0
    then write_aligned garbage v buf offset sequence_number
    else write_unaligned garbage v buf offset sequence_number
