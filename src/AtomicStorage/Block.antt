-- ===== src/AtomicStorage/Block.antt =====
-- A block of the file: its bytes, and the same bytes as the numbers of type `int64_t` that a
-- `metadata_block` has (src/storage.cpp), the lowest byte first. The numbers are not negative.
pub mod Words
pub mod Sized
use chained_block_storage.Base.{
  ℕ, zero, suc, ◌+◌, ◌-◌, ◌*◌, ◌/◌, ◌%◌, Bool, ◌&&◌, ltb, leb, ◌==◌, if◌then◌else◌,
}

-- The byte at each position; those past the size of a block are of no account.
abbrev pub Block : Type 0
Block = ℕ → ℕ

abbrev pub block_size : ℕ
block_size = 4096

-- `memset` with zeros.
abbrev pub zero_block : Block
zero_block = λ _. 0

-- `memcpy(dst + at, src + from, n)`.
unfoldable pub copy : Block → ℕ → Block → ℕ → ℕ → Block
copy dst at src from n = λ q. if leb at q && ltb q (at + n) then src (from + (q - at)) else dst q

-- The number in the `n` bytes from `p` on.
unfoldable pub get_bytes : Block → ℕ → ℕ → ℕ
get_bytes b p zero = 0
get_bytes b p (suc n) = b p + 256 * get_bytes b (p + 1) n

unfoldable pub put_bytes : Block → ℕ → ℕ → ℕ → Block
put_bytes b p zero v = b
put_bytes b p (suc n) v = put_bytes (λ q. if q == p then v % 256 else b q) (p + 1) n (v / 256)

-- `indirect_block[k]`, the `k`th number of the block.
unfoldable pub get_word : Block → ℕ → ℕ
unfolding get_bytes
get_word b k = get_bytes b (8 * k) 8

unfoldable pub set_word : Block → ℕ → ℕ → Block
unfolding put_bytes
set_word b k v = put_bytes b (8 * k) 8 v

-- `last_level_block[l]` is a `metadata_entry`: two numbers.
unfoldable pub last_updated : Block → ℕ → ℕ
unfolding get_word
last_updated b l = get_word b (2 * l)

unfoldable pub file_block_num : Block → ℕ → ℕ
unfolding get_word
file_block_num b l = get_word b (2 * l + 1)

unfoldable pub set_entry : Block → ℕ → ℕ → ℕ → Block
unfolding set_word
set_entry b l block_num sequence_number =
    set_word (set_word b (2 * l + 1) block_num) (2 * l) sequence_number
