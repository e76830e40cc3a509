-- ===== src/AtomicStorage/Commit.antt =====
-- The commit of a write, and the reads of what is committed or waits for it (src/storage.cpp).
pub mod Offsets
use chained_block_storage.Base.{
  ℕ, zero, suc, ◌+◌, ◌-◌, ◌*◌, ◌/◌, ◌%◌, Bool, true, false, Option, none, some, List, [], ◌∷◌, ◌++◌,
  ◌==◌, ltb, map, if◌then◌else◌,
}
use chained_block_storage.Tables.Int.{ℤ, to_int}
use chained_block_storage.AtomicStorage.Block.{
  Block, block_size, zero_block, copy, get_word, set_word, file_block_num, last_updated,
}
use chained_block_storage.AtomicStorage.Index.{
  num_first_level, num_indirect, num_entries, get_first_level, get_second_level, get_third_level,
  get_last_level, offset_of,
}
use chained_block_storage.AtomicStorage.State.{File, UncommittedWrite, Volume, assign, write_block}

-- `first_block` as the block that is written: the sequence number and the roots, of which there is
-- one.
unfoldable pub first_block : ℕ → (ℕ → ℕ) → Block
unfolding set_word
first_block last_committed first_level_blocks =
    set_word (set_word zero_block 0 last_committed) 1 (first_level_blocks 0)

unfoldable pub set_root : (ℕ → ℕ) → ℕ → ℕ → ℕ → ℕ
set_root roots i root k = if k == i then root else roots k

-- The part of `commit` before the file is written: the new roots, and the offsets that are no longer
-- pending.
unfoldable pub install : Volume → ℕ → ℕ → UncommittedWrite → Volume
unfolding set_root assign
install v sequence_number offset uw =
    let start = offset - offset % block_size in
    let next = start + block_size in
    let roots = set_root v.first_level_blocks (get_first_level start) uw.new_metadata_offset_0 in
    let pending = assign v.pending_blocks start none in
    let one : Volume = record v {
      first_level_blocks = roots;
      pending_blocks = pending;
      last_committed = sequence_number;
      uncommitted_writes = assign v.uncommitted_writes sequence_number none;
    } in
    let both : Volume = record one {
      first_level_blocks = set_root roots (get_first_level next) uw.new_metadata_offset_1;
      pending_blocks = assign pending next none;
    } in
    if uw.new_metadata_offset_1 == 0
    then one
    else if uw.new_metadata_offset_0 == uw.new_metadata_offset_1
    then one
    else both

-- The write of block 0, and the blocks that are free after it.
unfoldable pub persist : Volume → UncommittedWrite → Volume
unfolding first_block write_block
persist v uw = record v {
  file = write_block v.file 0 (first_block v.last_committed v.first_level_blocks);
  free_blocks = v.free_blocks ++ uw.to_free;
}

-- `commit`; `none` is a use of a null pointer.
unfoldable pub commit : Volume → ℕ → ℕ → Option Volume
unfolding install persist
commit v sequence_number offset = elim (v.uncommitted_writes sequence_number) [
  | none ↦ none
  | some uw ↦ some (persist (install v sequence_number offset uw) uw)
]

unfoldable pub get_sequence_number : Volume → ℕ
get_sequence_number v = v.last_committed

-- The block of an offset below a root, without a test for blocks that are not there.
unfoldable pub block_below : File → ℕ → ℕ → Block
block_below file root offset =
    let n1 = get_word (file root) (get_second_level offset) in
    let n2 = get_word (file n1) (get_third_level offset) in
    file (file_block_num (file n2) (get_last_level offset))

-- The buffer after a read of a write that waits.
unfoldable pub read_uncommitted : Volume → ℕ → Block → UncommittedWrite → Block
unfolding block_below copy
read_uncommitted v offset buf uw =
    let remainder = offset % block_size in
    let start = offset - remainder in
    if remainder == 0
    then block_below v.file uw.new_metadata_offset_0 offset
    else copy
        (copy buf 0 (block_below v.file uw.new_metadata_offset_0 start) remainder
          (block_size - remainder))
        (block_size - remainder) (block_below v.file uw.new_metadata_offset_1 (start + block_size))
        0 remainder

-- `read_sequence_number`: `none` for false, and otherwise the buffer.
unfoldable pub read_sequence_number : Volume → ℕ → ℕ → Block → Option Block
read_sequence_number v sequence_number offset buf = elim (v.uncommitted_writes sequence_number) [
  | none ↦ none
  | some uw ↦ some (read_uncommitted v offset buf uw)
]

-- A loop over `n` indices from `i` on that appends to a list.
unfoldable pub collect : {A : Type 0} → ℕ → ℕ → (ℕ → List A) → List A
collect zero i body = []
collect (suc n) i body = body i ++ collect n (i + 1) body

-- The same, over the places of a block of numbers that are not 0.
unfoldable pub collect_below : {A : Type 0} → ℕ → (ℕ → ℕ) → (ℕ → ℕ → List A) → List A
unfolding collect
collect_below n nums body = collect n 0 (λ i. if nums i == 0 then [] else body i (nums i))

-- The nested loops that `get_modified_offsets`, `checksum` and `open_volume` have in common, down to
-- the entries: `visit` is what they append for a block of numbers, `entry` what for a place of a
-- block of entries, which has its offset.
unfoldable pub walk : {A : Type 0} → Volume → (ℕ → List A) → (ℕ → ℕ → ℕ → List A) → List A
unfolding collect_below collect
walk v visit entry = collect_below num_first_level v.first_level_blocks (λ i n1.
    visit n1
    ++ collect_below num_indirect (get_word (v.file n1)) (λ j n2.
      visit n2
      ++ collect_below num_indirect (get_word (v.file n2))
          (λ k n3. visit n3 ++ collect num_entries 0 (λ l. entry n3 l (offset_of i j k l)))))

-- The offset as the code computes it, with the numbers of type `int` that it multiplies.
unfoldable pub int_offset : ℕ → ℤ
unfolding to_int
int_offset offset = to_int offset

-- The offsets whose last update has a number above the given one, with those numbers.
unfoldable pub get_modified_offsets : Volume → ℕ → List (ℤ × ℕ)
unfolding walk int_offset
get_modified_offsets v sequence_number =
    walk v (λ _. [])
      (λ n l offset.
        let s = last_updated (v.file n) l in
        if ltb sequence_number s then (int_offset offset, s) ∷ [] else [])

-- The hexadecimal digits of a byte as `std::hex` prints an `int`: no leading zero.
unfoldable pub hex_digit : ℕ → ℕ
hex_digit d = if ltb d 10 then 48 + d else 87 + d

unfoldable pub hex_byte : ℕ → List ℕ
unfolding hex_digit
hex_byte b = if ltb b 16 then hex_digit b ∷ [] else hex_digit (b / 16) ∷ hex_digit (b % 16) ∷ []

unfoldable pub hex : List ℕ → List ℕ
unfolding hex_byte
hex [] = []
hex (b ∷ bs) = hex_byte b ++ hex bs

-- The first bytes of a block.
unfoldable pub bytes_of : ℕ → ℕ → Block → List ℕ
bytes_of zero p b = []
bytes_of (suc n) p b = b p ∷ bytes_of n (p + 1) b

unfoldable pub digests : (List ℕ → List ℕ) → List Block → List ℕ
digests md5 [] = []
digests md5 (b ∷ bs) = md5 (bytes_of block_size 0 b) ++ digests md5 bs

-- `checksum`, over the function `MD5` of OpenSSL: the digest of the digests of all blocks of data.
unfoldable pub checksum : (List ℕ → List ℕ) → Volume → List ℕ
unfolding walk digests bytes_of hex
checksum md5 v = hex (
    md5 (
      digests md5 (
        walk v (λ _. [])
          (λ n l offset.
            let k = file_block_num (v.file n) l in if k == 0 then [] else v.file k ∷ []))))
