-- ===== src/Node/Volume.antt =====
-- The copy-on-write storage (src/storage.cpp) as the volume of a node. `none` is a process that a null
-- pointer has ended.
use chained_block_storage.Base.{ℕ, Option, none, some, List, []}
use chained_block_storage.Tables.Int.{ℤ, pos, negsuc}
use chained_block_storage.AtomicStorage.State.{Volume}
use chained_block_storage.AtomicStorage.Commit.{commit, get_sequence_number}
use chained_block_storage.AtomicStorage.Strings.{
  write_string, read_string, read_sequence_number_string,
}
use chained_block_storage.Node.{Storage}

-- What the memory holds where the write with a number reads it uninitialised, and behind its string.
module _ (garbage behind : ℕ → ℕ → ℕ) where
  abbrev pub volume_write : List ℕ → ℕ → ℕ → Option Volume → Option Volume
  volume_write bytes offset s none = none
  volume_write bytes offset s (some v) = some (write_string (garbage s) (behind s) v bytes offset s)

-- No write has a negative number.
abbrev pub volume_commit : ℤ → ℕ → Option Volume → Option Volume
volume_commit s offset none = none
volume_commit (pos s) offset (some v) = commit v s offset
volume_commit (negsuc n) offset (some v) = none

abbrev pub volume_read : ℕ → Option Volume → List ℕ
volume_read offset none = []
volume_read offset (some v) = read_string v offset

abbrev pub volume_read_sequence_number : ℤ → ℕ → Option Volume → Option (List ℕ)
volume_read_sequence_number s offset none = none
volume_read_sequence_number (pos s) offset (some v) = read_sequence_number_string v s offset
volume_read_sequence_number (negsuc n) offset (some v) = none

abbrev pub volume_sequence_number : Option Volume → ℕ
volume_sequence_number none = 0
volume_sequence_number (some v) = get_sequence_number v

-- The storage; `modified` stands for `get_modified_offsets`, whose offsets are of type `int`.
abbrev pub atomic_storage :
    (garbage behind : ℕ → ℕ → ℕ)
    → (modified : ℕ → Option Volume → List (ℕ × ℕ)) → Storage (Option Volume)
atomic_storage garbage behind modified = record {
  write = volume_write garbage behind;
  commit = volume_commit;
  read = volume_read;
  read_sequence_number = volume_read_sequence_number;
  get_modified_offsets = modified;
  get_sequence_number = volume_sequence_number;
}
