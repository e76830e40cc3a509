-- ===== src/Tests/FlatStorage.antt =====
-- The flat storage (src/storage-nonatomic.cpp) at fixed inputs.
use chained_block_storage.Base.{◌≡◌, refl, none, some, [], ◌∷◌, arith}
use chained_block_storage.AtomicStorage.Block.{Block, zero_block, set_entry}
use chained_block_storage.AtomicStorage.Block.Words.{file_block_num-set_entry}
use chained_block_storage.FlatStorage.{
  FlatVolume, entry_block, entry_index, entry_num, take_block_num, get_free_block_num, write,
}
use chained_block_storage.FlatStorage.Waiting.{freed_by, write-write}

-- The block at offset 0 is 300000, and 300001 is free.
abbrev one_block : FlatVolume
one_block = record {
  file = λ _. set_entry zero_block 0 300000 7;
  uncommitted_writes = λ _. none;
  pending_blocks = λ _. none;
  free_blocks = 300001 ∷ [];
  num_total_blocks = 300002;
}

one_block-num : entry_num one_block.file 0 ≡ 300000
unfolding entry_num entry_index
one_block-num = file_block_num-set_entry zero_block 0 300000 7 (omega arith)

abbrev twos : Block
twos _ = 2

write-write_example :
    (freed_by ((write one_block twos 0 8).uncommitted_writes 8)
      ≡ some (entry_num one_block.file 0 ∷ []))
    × (freed_by ((write (write one_block twos 0 8) zero_block 0 9).uncommitted_writes 9)
        ≡ some (entry_num one_block.file 0 ∷ []))
unfolding entry_block get_free_block_num take_block_num
write-write_example =
    write-write one_block twos zero_block 0 8 refl (λ e. absurd (omega (arith, one_block-num, e)))
      (λ e. absurd (omega (arith, e)))
