-- ===== src/AtomicStorage/Index.antt =====
-- The place of a volume offset in the tree of blocks (src/storage.cpp). Offsets are not negative, and
-- a mask of all the bits below a power of two is the remainder by that power.
use chained_block_storage.Base.{ℕ, ◌+◌, ◌*◌, ◌/◌, ◌%◌, ◌^◌, ◌<◌, ◌≡◌, arith}
use chained_block_storage.AtomicStorage.Block.{block_size}

abbrev pub num_blocks : ℕ
num_blocks = 2 ^ 38 / block_size

abbrev pub num_entries : ℕ
num_entries = block_size / 16

abbrev pub num_indirect : ℕ
num_indirect = block_size / 8

abbrev pub num_first_level : ℕ
num_first_level = num_blocks / num_entries / num_indirect / num_indirect

abbrev pub get_first_level : ℕ → ℕ
get_first_level offset =
    offset / num_entries / num_indirect / num_indirect / block_size % num_first_level

unfoldable pub get_second_level : ℕ → ℕ
get_second_level offset = offset / num_entries / num_indirect / block_size % num_indirect

unfoldable pub get_third_level : ℕ → ℕ
get_third_level offset = offset / num_entries / block_size % num_indirect

unfoldable pub get_last_level : ℕ → ℕ
get_last_level offset = offset / block_size % num_entries

-- The offset that `get_modified_offsets` gives for a place.
unfoldable pub offset_of : ℕ → ℕ → ℕ → ℕ → ℕ
offset_of i j k l = block_size * (l + num_entries * (k + num_indirect * (j + num_indirect * i)))

pub get_first_level-zero : (offset : ℕ) → get_first_level offset ≡ 0
get_first_level-zero offset = omega arith

-- The offset of the place of a block of the volume is that of the block: for every offset below 2^38
-- that is a multiple of the size of a block.
pub offset_of-levels :
    (offset : ℕ)
    → offset % block_size ≡ 0
    → offset < 2 ^ 38
    → offset_of
        (get_first_level offset)
        (get_second_level offset)
        (get_third_level offset)
        (get_last_level offset)
      ≡ offset
unfolding offset_of get_second_level get_third_level get_last_level
offset_of-levels offset aligned bounded = omega arith

-- The levels of the offset of a place give the place back, for indices that a block has.
pub levels-offset_of :
    (j k l : ℕ)
    → j < num_indirect
    → k < num_indirect
    → l < num_entries
    → (get_second_level (offset_of 0 j k l) ≡ j)
      × (get_third_level (offset_of 0 j k l) ≡ k)
      × (get_last_level (offset_of 0 j k l) ≡ l)
unfolding offset_of get_second_level get_third_level get_last_level
levels-offset_of j k l hj hk hl = (omega arith, omega arith, omega arith)
