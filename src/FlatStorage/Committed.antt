-- ===== src/FlatStorage/Committed.antt =====
-- The commit of the flat storage, its start, and the reads of what is committed
-- (src/storage-nonatomic.cpp).
use chained_block_storage.Base.{
  ℕ, zero, suc, ◌+◌, ◌-◌, ◌*◌, ◌/◌, ◌%◌, Option, none, some, List, [], ◌∷◌, ◌++◌, ◌==◌, ltb,
  if◌then◌else◌,
}
use chained_block_storage.AtomicStorage.Block.{Block, block_size, copy, get_word}
use chained_block_storage.AtomicStorage.Index.{num_blocks}
use chained_block_storage.AtomicStorage.State.{File, assign}
use chained_block_storage.AtomicStorage.Commit.{collect, digests, hex}
use chained_block_storage.AtomicStorage.Open.{sort, unused}
use chained_block_storage.FlatStorage.{
  FlatVolume, FlatWrite, metadata_size, entry_num, entry_updated, write_entry, set_sequence_num,
  init_metadata, read_aligned,
}

-- What `commit` does to one block.
unfoldable pub settle : FlatVolume → ℕ → ℕ → ℕ → FlatVolume
unfolding assign write_entry
settle v sequence_number offset block_num = record v {
  pending_blocks = assign v.pending_blocks offset none;
  file = write_entry v.file offset sequence_number block_num;
}

unfoldable pub settle_all : FlatVolume → ℕ → ℕ → FlatWrite → FlatVolume
unfolding settle
settle_all v sequence_number offset uw =
    let start = offset - offset % block_size in
    let one = settle v sequence_number start uw.new_file_offset_0 in
    let both = settle one sequence_number (start + block_size) uw.new_file_offset_1 in
    if uw.new_file_offset_1 == 0
    then one
    else if uw.new_file_offset_0 == uw.new_file_offset_1
    then one
    else both

unfoldable pub finish : FlatVolume → ℕ → FlatWrite → FlatVolume
unfolding set_sequence_num assign
finish v sequence_number uw = record v {
  file = set_sequence_num v.file sequence_number;
  uncommitted_writes = assign v.uncommitted_writes sequence_number none;
  free_blocks = v.free_blocks ++ uw.to_free;
}

-- `commit`; `none` is a use of a null pointer.
unfoldable pub commit : FlatVolume → ℕ → ℕ → Option FlatVolume
unfolding settle_all finish
commit v sequence_number offset = elim (v.uncommitted_writes sequence_number) [
  | none ↦ none
  | some uw ↦ some (finish (settle_all v sequence_number offset uw) sequence_number uw)
]

unfoldable pub get_sequence_number : FlatVolume → ℕ
get_sequence_number v = get_word (v.file 0) 0

unfoldable pub read_waiting : FlatVolume → ℕ → Block → FlatWrite → Block
unfolding copy
read_waiting v offset buf uw =
    let remainder = offset % block_size in
    if remainder == 0
    then v.file uw.new_file_offset_0
    else copy (copy buf 0 (v.file uw.new_file_offset_0) remainder (block_size - remainder))
        (block_size - remainder) (v.file uw.new_file_offset_1) 0 remainder

-- `read_sequence_number`: `none` for false, and otherwise the buffer.
unfoldable pub read_sequence_number : FlatVolume → ℕ → ℕ → Block → Option Block
unfolding read_waiting
read_sequence_number v sequence_number offset buf = elim (v.uncommitted_writes sequence_number) [
  | none ↦ none
  | some uw ↦ some (read_waiting v offset buf uw)
]

unfoldable pub get_modified_offsets : FlatVolume → ℕ → List (ℕ × ℕ)
unfolding collect entry_updated
get_modified_offsets v sequence_number = collect num_blocks 0 (λ i.
    let s = entry_updated v.file (i * block_size) in
    if ltb sequence_number s then (i * block_size, s) ∷ [] else [])

-- `checksum`, over the function `MD5` of OpenSSL.
unfoldable pub checksum : (List ℕ → List ℕ) → FlatVolume → List ℕ
unfolding collect digests hex entry_num read_aligned
checksum md5 v = hex (
    md5 (
      digests md5 (
        collect num_blocks 0 (λ i.
          if entry_num v.file (i * block_size) == 0
          then []
          else read_aligned v (i * block_size) ∷ []))))

-- The loop of `open_volume` reads the entry of the offset `i`, not of the block `i`.
unfoldable pub used_blocks : File → List ℕ
unfolding collect entry_num
used_blocks file =
    collect num_blocks 0 (λ i. if entry_num file i == 0 then [] else entry_num file i ∷ [])

-- `open_volume` on a file of `size` bytes. The first number that may be free is, as the code has it, 1
-- and the size of the metadata in bytes.
unfoldable pub open_volume : FlatVolume → File → ℕ → FlatVolume
unfolding used_blocks sort unused init_metadata set_sequence_num
open_volume v file size =
    let total = (size + 1) / block_size in
    let m : FlatVolume =
      if total == 0
      then record v {
        file = set_sequence_num (init_metadata file) 0;
        num_total_blocks = 1 + metadata_size / block_size;
      }
      else record v { file = file; num_total_blocks = total } in
    let first = 1 + metadata_size in
    record m {
      free_blocks =
          v.free_blocks ++ unused (m.num_total_blocks - first) first (sort (used_blocks m.file));
    }

-- The numbers from `i` on.
unfoldable pub numbers_from : ℕ → ℕ → List ℕ
numbers_from zero i = []
numbers_from (suc n) i = i ∷ numbers_from n (i + 1)

-- `init_volume` on a file that has `size` bytes when it is asked for, after the metadata is written.
unfoldable pub init_volume : FlatVolume → File → ℕ → FlatVolume
unfolding numbers_from init_metadata set_sequence_num
init_volume v file size =
    let first = 1 + metadata_size / block_size in
    record v {
      file = set_sequence_num (init_metadata file) 0;
      num_total_blocks = first;
      free_blocks = v.free_blocks ++ numbers_from (size / block_size - first) first;
    }

unfoldable pub close_volume : FlatVolume → FlatVolume
close_volume v = record v {
  num_total_blocks = 0;
  uncommitted_writes = λ _. none;
  pending_blocks = λ _. none;
  free_blocks = [];
}
