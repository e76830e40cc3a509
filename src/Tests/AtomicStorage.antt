-- ===== src/Tests/AtomicStorage.antt =====
-- The copy-on-write storage (src/storage.cpp) at fixed inputs.
use mathlib.Core.List.{Memᴰ}
use chained_block_storage.Base.{
  ◌↔◌, ℕ, suc, ◌+◌, ◌/◌, ◌^◌, ◌<◌, ◌≡◌, refl, inl, none, some, List, [], ◌∷◌, arith,
}
use chained_block_storage.Tables.Int.{pos}
use chained_block_storage.AtomicStorage.Commit.Offsets.{int_offset-offset_of}
use chained_block_storage.AtomicStorage.Block.{Block, zero_block, set_word}
use chained_block_storage.AtomicStorage.Index.{get_second_level, get_third_level, offset_of}
use chained_block_storage.AtomicStorage.State.{Volume, read}
use chained_block_storage.AtomicStorage.Write.{write, write_blocks}
use chained_block_storage.AtomicStorage.Write.Uninitialised.{write-uninitialised}
use chained_block_storage.AtomicStorage.Write.Rerouted.{Harmless, data_num}
use chained_block_storage.AtomicStorage.Commit.{commit, read_sequence_number, int_offset}
use chained_block_storage.AtomicStorage.Open.{init_volume, open_volume, close_volume, no_roots}
use chained_block_storage.AtomicStorage.Versions.{Consistent}
use chained_block_storage.AtomicStorage.Versions.Disk.{Disk, disk_write, put, Implements}
use chained_block_storage.AtomicStorage.Versions.Refinement.{
  Frees, write-Implements, commit-Implements, write-NewVersion,
}
use chained_block_storage.AtomicStorage.Block.Sized.{zero_block-Sized, set_word-SizedBlock}
use chained_block_storage.AtomicStorage.Versions.Sized.{Sized, init_volume-Sized}
use chained_block_storage.AtomicStorage.Write.Blocks.{write_list}
use chained_block_storage.AtomicStorage.Versions.Restart.{AllAccounted}
use chained_block_storage.AtomicStorage.Versions.Recovered.{Reaches, crash-open_volume}
use chained_block_storage.AtomicStorage.Versions.Reads.{
  number-zero, init_volume-Consistent, init_volume-Implements, init_volume-read, commit-read,
  write-read_sequence_number,
}

abbrev blank_volume : Volume
blank_volume = record {
  file = λ _. zero_block;
  last_committed = 7;
  first_level_blocks = λ _. 9;
  uncommitted_writes = λ _. none;
  pending_blocks = λ _. none;
  free_blocks = 3 ∷ [];
  num_total_blocks = 5;
}

abbrev zeros : Disk
zeros = record { committed = λ _. zero_block; waiting = [] }

abbrev new_volume : Volume
new_volume = init_volume (close_volume blank_volume) (λ _. zero_block) 4096

abbrev no_garbage : ℕ → ℕ
no_garbage _ = 0

abbrev ones : Block
ones _ = 1

init_volume-read_example : Implements new_volume zeros × (read new_volume 8192 ones ≡ zero_block)
init_volume-read_example =
    init_volume-read blank_volume (λ _. zero_block) 4096 8192 ones (omega arith) (refl, omega arith)

new_volume-Implements : Implements new_volume zeros
new_volume-Implements = init_volume-Implements blank_volume (λ _. zero_block) 4096 (omega arith)

Harmless-at_0 : Harmless no_garbage 0 (new_volume.num_total_blocks + 4)
unfolding get_second_level get_third_level
Harmless-at_0 = (inl refl, inl refl)

new_volume-small : new_volume.num_total_blocks + 4 < 2 ^ 64
unfolding init_volume
new_volume-small = omega arith

abbrev written_volume : Volume
written_volume = write no_garbage new_volume ones 0 (suc (new_volume.last_committed + 0))

write-Implements_example : Implements written_volume (disk_write zeros ones 0)
write-Implements_example =
    write-Implements no_garbage new_volume ones 0 zeros new_volume-Implements (refl, omega arith)
      Harmless-at_0 new_volume-small

written_volume-Implements :
    Implements written_volume
      (record { committed = λ _. zero_block; waiting = put (λ _. zero_block) 0 ones ∷ [] })
written_volume-Implements =
    write-Implements no_garbage new_volume ones 0 zeros new_volume-Implements (refl, omega arith)
      Harmless-at_0 new_volume-small

new_volume-Consistent : Consistent new_volume []
new_volume-Consistent = init_volume-Consistent blank_volume (λ _. zero_block) 4096 (omega arith)

written_volume-last : suc written_volume.last_committed < 2 ^ 64
unfolding init_volume
written_volume-last =
    let nv =
      write-NewVersion no_garbage new_volume ones 0 [] new_volume-Consistent Harmless-at_0
        new_volume-small refl in
    omega (arith, nv.last)

written_volume-small : written_volume.num_total_blocks < 2 ^ 64
unfolding init_volume
written_volume-small =
    let nv =
      write-NewVersion no_garbage new_volume ones 0 [] new_volume-Consistent Harmless-at_0
        new_volume-small refl in
    omega (arith, nv.grows)

commit-Implements_example :
    (v : Volume) × (commit written_volume (suc written_volume.last_committed) 0 ≡ some v)
    × (v.last_committed ≡ suc written_volume.last_committed)
    × (v.pending_blocks 0 ≡ none)
    × Implements v (record { committed = put (λ _. zero_block) 0 ones; waiting = [] })
    × Frees written_volume v
commit-Implements_example =
    commit-Implements written_volume 0 (λ _. zero_block) (put (λ _. zero_block) 0 ones) []
      written_volume-Implements written_volume-last written_volume-small

commit-read_example :
    (v : Volume) × (commit written_volume (suc written_volume.last_committed) 0 ≡ some v)
    × (read v 0 zero_block ≡ ones)
commit-read_example =
    commit-read written_volume 0 zero_block (λ _. zero_block) (put (λ _. zero_block) 0 ones) []
      written_volume-Implements written_volume-last written_volume-small (refl, omega arith)

write-read_sequence_number_example :
    read_sequence_number written_volume (suc (new_volume.last_committed + 0)) 0 zero_block
    ≡ some ones
write-read_sequence_number_example =
    write-read_sequence_number no_garbage new_volume ones 0 zeros zero_block new_volume-Implements
      (refl, omega arith) Harmless-at_0 new_volume-small

abbrev one_word : Block
one_word = set_word zero_block 0 1

-- Of the four writes only that of the data is in the file.
data_only : List (ℕ × Block)
data_only = (data_num no_garbage new_volume one_word 0 1, one_word) ∷ []

new_volume-Sized : Sized new_volume.file
new_volume-Sized =
    init_volume-Sized (close_volume blank_volume) (λ _. zero_block) 4096 (λ _. zero_block-Sized)

new_volume-Reaches : Reaches new_volume.file (new_volume.first_level_blocks 0) ((4096 + 1) / 4096)
unfolding init_volume no_roots
new_volume-Reaches = record {
  some_blocks = omega arith;
  in_file = λ p h. absurd (h (number-zero new_volume.file p));
}

crash-open_volume_example :
    let w =
      open_volume (close_volume written_volume) (write_blocks data_only new_volume.file) 4096 in
    ((write no_garbage new_volume one_word 0 (suc (new_volume.last_committed + 0))).file
      ≡ write_blocks
          (write_list no_garbage new_volume one_word 0 (suc (new_volume.last_committed + 0)))
          new_volume.file)
    × (w.last_committed ≡ new_volume.last_committed)
    × Implements w zeros
    × AllAccounted w
unfolding init_volume data_only
crash-open_volume_example =
    crash-open_volume no_garbage new_volume written_volume one_word 0 zeros data_only 4096
      new_volume-Implements new_volume-Sized
      (set_word-SizedBlock zero_block 0 1 (omega arith) zero_block-Sized) refl Harmless-at_0
      new_volume-small (Memᴰ.head refl, tt) new_volume-Reaches

-- At 1 MiB the block of the number that the memory holds, here 6, is lost.
write-uninitialised_example :
    (write (λ _. 6) (record new_volume { file = λ _. ones }) ones 1048576 1).file 6 ≡ zero_block
unfolding get_third_level
write-uninitialised_example =
    write-uninitialised (λ _. 6) (record new_volume { file = λ _. ones }) ones 1048576 1 refl
      (λ e. absurd (omega (arith, e)))

int_offset-offset_of_example : (int_offset (offset_of 0 4 0 0) ≡ pos (offset_of 0 4 0 0)) ↔ (4 < 4)
int_offset-offset_of_example = int_offset-offset_of 4 0 0 (omega arith) (omega arith)
