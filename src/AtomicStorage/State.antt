-- ===== src/AtomicStorage/State.antt =====
-- The globals of the storage and its reads (src/storage.cpp). `fd` is the file, a block for each
-- number; a call of the system that fails ends the process and is left out.
use chained_block_storage.Base.{
  ℕ, ◌+◌, ◌-◌, ◌%◌, Option, none, some, List, [], ◌∷◌, ◌==◌, if◌then◌else◌,
}
use chained_block_storage.AtomicStorage.Block.{
  Block, block_size, zero_block, copy, get_word, file_block_num,
}
use chained_block_storage.AtomicStorage.Index.{
  get_first_level, get_second_level, get_third_level, get_last_level,
}

abbrev pub File : Type 0
File = ℕ → Block

-- `uncommitted_write`. The two numbers of `new_metadata_offset`.
pub record UncommittedWrite : Type 0 where
  pub to_free : List ℕ
  pub new_metadata_offset_0 : ℕ
  pub new_metadata_offset_1 : ℕ

-- `first_block` is its two fields. A key of `uncommitted_writes` that is not there and one with a null
-- pointer, which `operator[]` makes of it, are both `none`.
pub record Volume : Type 0 where
  pub file : File
  pub last_committed : ℕ
  pub first_level_blocks : ℕ → ℕ
  pub uncommitted_writes : ℕ → Option UncommittedWrite
  pub pending_blocks : ℕ → Option ℕ
  pub free_blocks : List ℕ
  pub num_total_blocks : ℕ

-- `map[k] = x`, and `map.erase(k)` with `none`.
unfoldable pub assign : {A : Type 0} → (ℕ → Option A) → ℕ → Option A → ℕ → Option A
assign m k x j = if j == k then x else m j

-- The code's place in the file is a product of type `long`, so this is the code for numbers below
-- 2^51.
unfoldable pub write_block : File → ℕ → Block → File
write_block file n b k = if k == n then b else file k

-- The number at place `k` of the block `n` of numbers. A number 0 stands for no block, and the code
-- stops there with zeros: so there are no blocks below it.
unfoldable pub child : File → ℕ → ℕ → ℕ
child file n k = if n == 0 then 0 else get_word (file n) k

unfoldable pub leaf : File → ℕ → ℕ → ℕ
leaf file n l = if n == 0 then 0 else file_block_num (file n) l

-- The number of the block of an offset, in the tree with the given root.
unfoldable pub lookup : File → ℕ → ℕ → ℕ
unfolding child leaf
lookup file root offset =
    leaf file (child file (child file root (get_second_level offset)) (get_third_level offset))
      (get_last_level offset)

unfoldable pub block_at : File → ℕ → Block
block_at file n = if n == 0 then zero_block else file n

unfoldable pub read_aligned : Volume → ℕ → Block
unfolding lookup block_at
read_aligned v offset = elim (v.pending_blocks offset) [
  | some n ↦ v.file n
  | none ↦ block_at v.file (lookup v.file (v.first_level_blocks (get_first_level offset)) offset)
]

-- `buf` is the buffer that is read into.
unfoldable pub read : Volume → ℕ → Block → Block
unfolding read_aligned copy
read v offset buf =
    let remainder = offset % block_size in
    let start = offset - remainder in
    let both =
      copy (copy buf 0 (read_aligned v start) remainder (block_size - remainder))
        (block_size - remainder) (read_aligned v (start + block_size)) 0 remainder in
    if remainder == 0 then read_aligned v offset else both

-- `get_free_block_num`, by the queue of free blocks: the number, and the volume after it. The code's
-- total is an `int`, so this is the code for totals below 2^31 - 1.
unfoldable pub next_block_num : List ℕ → Volume → ℕ × Volume
next_block_num [] v =
    (v.num_total_blocks + 1, record v { num_total_blocks = v.num_total_blocks + 1 })
next_block_num (n ∷ rest) v = (n, record v { free_blocks = rest })

unfoldable pub get_free_block_num : Volume → ℕ × Volume
unfolding next_block_num
get_free_block_num v = next_block_num v.free_blocks v
