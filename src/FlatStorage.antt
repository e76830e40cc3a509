-- ===== src/FlatStorage.antt =====
-- The flat storage (src/storage-nonatomic.cpp): one table of entries, which a commit overwrites. The
-- blocks of the file and the lists of block numbers are as in AtomicStorage.
pub mod Waiting
pub mod Committed
use chained_block_storage.Base.{
  ℕ, zero, suc, ◌+◌, ◌-◌, ◌*◌, ◌/◌, ◌%◌, Bool, true, false, Option, none, some, List, [], ◌∷◌, ◌++◌,
  ◌==◌, ltb, if◌then◌else◌,
}
use chained_block_storage.AtomicStorage.Block.{
  Block, block_size, zero_block, copy, get_word, set_word, file_block_num, last_updated, set_entry,
}
use chained_block_storage.AtomicStorage.Index.{num_blocks}
use chained_block_storage.AtomicStorage.State.{File, assign, write_block}
use chained_block_storage.AtomicStorage.Commit.{collect, digests, hex}
use chained_block_storage.AtomicStorage.Open.{sort, unused}

abbrev pub metadata_size : ℕ
metadata_size = num_blocks * 16

pub record FlatWrite : Type 0 where
  pub to_free : List ℕ
  pub new_file_offset_0 : ℕ
  pub new_file_offset_1 : ℕ

pub record FlatVolume : Type 0 where
  pub file : File
  pub uncommitted_writes : ℕ → Option FlatWrite
  pub pending_blocks : ℕ → Option ℕ
  pub free_blocks : List ℕ
  pub num_total_blocks : ℕ

-- The entry of an offset has the place `offset / 4096 * 16 + 4096` in the file: its block, and its index
-- there.
unfoldable pub entry_block : ℕ → ℕ
entry_block offset = 1 + offset / block_size / 256

unfoldable pub entry_index : ℕ → ℕ
entry_index offset = offset / block_size % 256

unfoldable pub entry_num : File → ℕ → ℕ
unfolding entry_block entry_index
entry_num file offset = file_block_num (file (entry_block offset)) (entry_index offset)

unfoldable pub entry_updated : File → ℕ → ℕ
unfolding entry_block entry_index
entry_updated file offset = last_updated (file (entry_block offset)) (entry_index offset)

unfoldable pub write_entry : File → ℕ → ℕ → ℕ → File
unfolding entry_block entry_index write_block
write_entry file offset sequence_number block_num =
    write_block file (entry_block offset)
      (set_entry (file (entry_block offset)) (entry_index offset) block_num sequence_number)

unfoldable pub set_sequence_num : File → ℕ → File
unfolding write_block
set_sequence_num file s = write_block file 0 (set_word (file 0) 0 s)

unfoldable pub zero_blocks : ℕ → ℕ → File → File
unfolding write_block
zero_blocks zero i file = file
zero_blocks (suc n) i file = zero_blocks n (i + 1) (write_block file i zero_block)

unfoldable pub init_metadata : File → File
unfolding zero_blocks
init_metadata file = zero_blocks (metadata_size / block_size) 1 file

unfoldable pub read_aligned : FlatVolume → ℕ → Block
unfolding entry_num
read_aligned v offset = elim (v.pending_blocks offset) [
  | some n ↦ v.file n
  | none ↦ if entry_num v.file offset == 0 then zero_block else v.file (entry_num v.file offset)
]

unfoldable pub read : FlatVolume → ℕ → Block → Block
unfolding read_aligned copy
read v offset buf =
    let remainder = offset % block_size in
    let start = offset - remainder in
    let both =
      copy (copy buf 0 (read_aligned v start) remainder (block_size - remainder))
        (block_size - remainder) (read_aligned v (start + block_size)) 0 remainder in
    if remainder == 0 then read_aligned v offset else both

unfoldable pub take_block_num : List ℕ → FlatVolume → ℕ × FlatVolume
take_block_num [] v =
    (v.num_total_blocks + 1, record v { num_total_blocks = v.num_total_blocks + 1 })
take_block_num (n ∷ rest) v = (n, record v { free_blocks = rest })

unfoldable pub get_free_block_num : FlatVolume → ℕ × FlatVolume
unfolding take_block_num
get_free_block_num v = take_block_num v.free_blocks v

-- The block that the entry has is to be freed.
unfoldable pub old_block : File → ℕ → List ℕ
unfolding entry_num
old_block file offset = if entry_num file offset == 0 then [] else entry_num file offset ∷ []

-- One block of data: its number, what it replaces, and the volume with it. `b` is made from what is
-- read, after the number is taken.
unfoldable pub put_block : FlatVolume → ℕ → (FlatVolume → Block) → ℕ × List ℕ × FlatVolume
unfolding get_free_block_num old_block write_block assign
put_block v offset b =
    let (n, w) = get_free_block_num v in
    (
      n,
      old_block w.file offset,
      record w {
        file = write_block w.file n (b w);
        pending_blocks = assign w.pending_blocks offset (some n);
      },
    )

unfoldable pub store : FlatVolume → ℕ → FlatWrite → FlatVolume
unfolding assign
store v sequence_number uw = record v {
  uncommitted_writes = assign v.uncommitted_writes sequence_number (some uw);
}

unfoldable pub write_aligned : FlatVolume → Block → ℕ → ℕ → FlatVolume
write_aligned v buf offset sequence_number =
    let (n, old, w) = put_block v offset (λ _. buf) in
    store w sequence_number (record { to_free = old; new_file_offset_0 = n; new_file_offset_1 = 0 })

unfoldable pub write_unaligned : FlatVolume → Block → ℕ → ℕ → FlatVolume
unfolding copy read
write_unaligned v buf offset sequence_number =
    let remainder = offset % block_size in
    let start = offset - remainder in
    let (n0, old0, v1) =
      put_block v start
        (λ w. copy (read w start zero_block) remainder buf 0 (block_size - remainder)) in
    let (n1, old1, v2) = put_block v1 (start + block_size) (λ w.
      copy (read w (start + block_size) zero_block) 0 buf (block_size - remainder) remainder) in
    store v2 sequence_number
      (record { to_free = old0 ++ old1; new_file_offset_0 = n0; new_file_offset_1 = n1 })

unfoldable pub write : FlatVolume → Block → ℕ → ℕ → FlatVolume
write v buf offset sequence_number =
    if offset % block_size == 0
    then write_aligned v buf offset sequence_number
    else write_unaligned v buf offset sequence_number
