-- ===== src/AtomicStorage/Write/Uninitialised.antt =====
-- The number that a write of one whole block takes from memory that nothing has set (src/storage.cpp,
-- `new_block_nums[1][2]` in `write_metadata`).
use chained_block_storage.Base.{
  ℕ, ◌%◌, ◌≡◌, ◌≢◌, ap, ◌∙◌, inl, inr, false, ◌++◌, ◌==◌, arith, if◌then◌else◌, Bool-cases,
}
use chained_block_storage.AtomicStorage.Block.{Block, zero_block, block_size}
use chained_block_storage.AtomicStorage.Index.{get_first_level, get_second_level, get_third_level}
use chained_block_storage.AtomicStorage.State.{File, Volume, write_block}
use chained_block_storage.AtomicStorage.Write.{
  no_path, read_path, updated, level_writes, metadata_writes, write_blocks, write_numbered,
  recorded, write,
}
use chained_block_storage.AtomicStorage.Write.Aligned.{after_3}
use chained_block_storage.AtomicStorage.Write.Rerouted.{
  with_data, numbers, old_path, data_num, write_aligned-result, result,
}
use chained_block_storage.AtomicStorage.Write.NewVersion.{write-aligned}

level_writes-last :
    (a1 a2 n0 n1 n2 k0 k1 k2 : ℕ) (b0 b1 b2 c0 c1 c2 : Block) (a0 : ℕ) (f : File)
    → a2 ≢ 0
    → write_blocks
        (level_writes a0 0 n0 k0 b0 c0
          ++ level_writes a1 0 n1 k1 b1 c1
          ++ level_writes a2 0 n2 (if a2 == 0 then n2 else k2) b2 c2)
        f
        k2
      ≡ c2
unfolding level_writes write_blocks write_block
level_writes-last a1 a2 n0 n1 n2 k0 k1 k2 b0 b1 b2 c0 c1 c2 a0 f h =
    let y : (a2 == 0) ≡ false = ground (arith, h) in
    elim (Bool-cases (a1 == 0)) [
      | inl x ↦ elim (Bool-cases (a0 == 0)) [
        | inl z ↦ rw (x, y, z) (ground arith)
        | inr z ↦ rw (x, y, z) (ground arith)
      ]
      | inr x ↦ elim (Bool-cases (a0 == 0)) [
        | inl z ↦ rw (x, y, z) (ground arith)
        | inr z ↦ rw (x, y, z) (ground arith)
      ]
    ]

result-uninitialised :
    (g : ℕ → ℕ) (v : Volume) (buf : Block) (o s : ℕ)
    → get_third_level o ≢ 0
    → (result g v buf o s).1.file (g 2) ≡ zero_block
unfolding write_numbered metadata_writes updated read_path no_path
result-uninitialised g v buf o s h =
    let n = numbers g v buf o s in
    let p = (updated false n (old_path g v buf o s) no_path (data_num g v buf o s) 0 s).0 in
    level_writes-last (get_second_level o) (get_third_level o) n.new_0 n.new_1 n.new_2 n.second_0
      n.second_1 (g 2) p.block_0 p.block_1 p.block_2 zero_block zero_block zero_block
      (get_first_level o) (after_3 (with_data g v buf o s)).file h

-- A write of a whole block overwrites with zeros the block whose number happens to be in the memory
-- that `new_block_nums[1][2]` takes, at every offset where the third level index is not 0.
pub write-uninitialised :
    (g : ℕ → ℕ) (v : Volume) (buf : Block) (o s : ℕ)
    → o % block_size ≡ 0
    → get_third_level o ≢ 0
    → (write g v buf o s).file (g 2) ≡ zero_block
unfolding recorded
write-uninitialised g v buf o s aligned h =
    ap (λ (x : Volume). x.file (g 2))
      (write-aligned g v buf o s aligned ∙ write_aligned-result g v buf o s aligned)
    ∙ result-uninitialised g v buf o s h
