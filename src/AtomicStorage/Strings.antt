-- ===== src/AtomicStorage/Strings.antt =====
-- The overloads of the storage's calls that take strings (src/storage.cpp).
use chained_block_storage.Base.{ℕ, zero, suc, Option, none, some, List, [], ◌∷◌}
use chained_block_storage.AtomicStorage.Block.{Block, block_size, zero_block}
use chained_block_storage.AtomicStorage.State.{Volume, read}
use chained_block_storage.AtomicStorage.Write.{write}
use chained_block_storage.AtomicStorage.Commit.{bytes_of, read_sequence_number}

-- `data()` of a string: its bytes, a zero, and what the memory holds behind it.
unfoldable pub string_data : (ℕ → ℕ) → List ℕ → Block
string_data behind [] zero = 0
string_data behind [] (suc q) = behind q
string_data behind (b ∷ bs) zero = b
string_data behind (b ∷ bs) (suc q) = string_data behind bs q

-- `write` of a string, of which a block is read.
unfoldable pub write_string : (ℕ → ℕ) → (ℕ → ℕ) → Volume → List ℕ → ℕ → ℕ → Volume
unfolding string_data
write_string garbage behind v bytes offset sequence_number =
    write garbage v (string_data behind bytes) offset sequence_number

-- `read` into an empty string, which `resize` makes a block of zeros first.
unfoldable pub read_string : Volume → ℕ → List ℕ
unfolding bytes_of
read_string v offset = bytes_of block_size 0 (read v offset zero_block)

-- `read_sequence_number` into an empty string.
unfoldable pub read_sequence_number_string : Volume → ℕ → ℕ → Option (List ℕ)
unfolding bytes_of
read_sequence_number_string v sequence_number offset =
    elim (read_sequence_number v sequence_number offset zero_block) [
      | none ↦ none
      | some b ↦ some (bytes_of block_size 0 b)
    ]
