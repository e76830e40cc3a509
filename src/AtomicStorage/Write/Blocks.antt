-- ===== src/AtomicStorage/Write/Blocks.antt =====
-- The blocks that a write of one whole block writes to the file (src/storage.cpp).
use chained_block_storage.Base.{
  ℕ, ◌+◌, ◌%◌, ◌<◌, ◌≡◌, ◌≢◌, refl, ap, ◌∙◌, ◌⊎◌, inl, inr, false, List, [], ◌∷◌, ◌++◌, All,
  All-append, arith, ◌==◌, if◌then◌else◌, Bool-cases,
}
use chained_block_storage.AtomicStorage.Block.{Block, block_size}
use chained_block_storage.AtomicStorage.Index.{
  get_first_level, get_first_level-zero, get_second_level, get_third_level,
}
use chained_block_storage.AtomicStorage.State.{File, Volume, write_block}
use chained_block_storage.AtomicStorage.Write.{
  no_path, read_path, updated, level_writes, metadata_writes, write_blocks, write_numbered, write,
  recorded, put_data,
}
use chained_block_storage.AtomicStorage.Write.Aligned.{
  get_free_block_num-SameData, after_1, after_2, after_3,
}
use chained_block_storage.AtomicStorage.Write.Rerouted.{
  Ready, with_data, data_num, numbers, old_path, new_way, write_aligned-result, a0, a1, a2, a3,
}
use chained_block_storage.AtomicStorage.Alloc.{Used, Allocated}
use chained_block_storage.AtomicStorage.Write.NewVersion.{write-aligned}

-- The blocks that a write of one whole block writes, in the order of the code.
abbrev pub write_list : (ℕ → ℕ) → Volume → Block → ℕ → ℕ → List (ℕ × Block)
write_list g v buf o s =
    let new = numbers g v buf o s in
    let paths = updated false new (old_path g v buf o s) no_path (data_num g v buf o s) 0 s in
    (data_num g v buf o s, buf) ∷ metadata_writes new paths.0 paths.1

-- The number is not of a block in use, and not that of block 0.
abbrev pub Fresh : Volume → ℕ × Block → Type 0
Fresh v x = (¬ Used v x.0) × (x.0 ≢ 0)

pub write_blocks-kept :
    (ws : List (ℕ × Block)) (f : File) (m : ℕ) → All (λ x. x.0 ≢ m) ws → write_blocks ws f m ≡ f m
unfolding write_blocks write_block
write_blocks-kept [] f m h = refl
write_blocks-kept ((n, b) ∷ ws) f m h =
    write_blocks-kept ws (write_block f n b) m h.1 ∙ ground (arith, h.0)

level_writes-All :
    (P : ℕ × Block → Type 0) (i n k : ℕ) (b c : Block)
    → ((x : Block) → P (n, x))
    → (i ≡ 0) ⊎ ((x : Block) → P (k, x))
    → All P (level_writes i 0 n (if i == 0 then n else k) b c)
unfolding level_writes
level_writes-All P i n k b c h g = elim (Bool-cases (i == 0)) [
  | inl z ↦ rw z (h b, tt)
  | inr nz ↦ elim g [ inl e ↦ absurd (ground (arith, nz, e)) | inr f ↦ rw nz (h b, (f c, tt)) ]
]

levels-All :
    (P : ℕ × Block → Type 0) (i0 i1 i2 n0 n1 n2 k0 k1 k2 : ℕ) (b0 b1 b2 c0 c1 c2 : Block)
    → ((x : Block) → P (n0, x))
    → ((x : Block) → P (n1, x))
    → ((x : Block) → P (n2, x))
    → (i0 ≡ 0) ⊎ ((x : Block) → P (k0, x))
    → (i1 ≡ 0) ⊎ ((x : Block) → P (k1, x))
    → (i2 ≡ 0) ⊎ ((x : Block) → P (k2, x))
    → All P (
        level_writes i0 0 n0 (if i0 == 0 then n0 else k0) b0 c0
        ++ level_writes i1 0 n1 (if i1 == 0 then n1 else k1) b1 c1
        ++ level_writes i2 0 n2 (if i2 == 0 then n2 else k2) b2 c2)
levels-All P i0 i1 i2 n0 n1 n2 k0 k1 k2 b0 b1 b2 c0 c1 c2 h0 h1 h2 g0 g1 g2 =
    let l0 = level_writes i0 0 n0 (if i0 == 0 then n0 else k0) b0 c0 in
    let l1 = level_writes i1 0 n1 (if i1 == 0 then n1 else k1) b1 c1 in
    let l2 = level_writes i2 0 n2 (if i2 == 0 then n2 else k2) b2 c2 in
    let a0 = level_writes-All P i0 n0 k0 b0 c0 h0 g0 in
    let a1 = level_writes-All P i1 n1 k1 b1 c1 h1 g1 in
    let a2 = level_writes-All P i2 n2 k2 b2 c2 h2 g2 in
    All-append P (l0 ++ l1) l2 (All-append P l0 l1 a0 a1) a2

module _ (g : ℕ → ℕ) (v : Volume) (buf : Block) (o s : ℕ) where
  -- The file after the write is the file before with those blocks written in that order.
  pub write_list-all :
      o % block_size ≡ 0 → (write g v buf o s).file ≡ write_blocks (write_list g v buf o s) v.file
  unfolding write_numbered recorded put_data write_blocks
  write_list-all h =
      let new = numbers g v buf o s in
      let paths = updated false new (old_path g v buf o s) no_path (data_num g v buf o s) 0 s in
      let writes = write_blocks (metadata_writes new paths.0 paths.1) in
      ap (λ (x : Volume). x.file) (write-aligned g v buf o s h ∙ write_aligned-result g v buf o s h)
      ∙ ap writes (
          (get_free_block_num-SameData (after_2 (with_data g v buf o s))).file
          ∙ (get_free_block_num-SameData (after_1 (with_data g v buf o s))).file
          ∙ (get_free_block_num-SameData (with_data g v buf o s)).file)
      ∙ ap (λ f. writes (write_block f (data_num g v buf o s) buf))
          (get_free_block_num-SameData v).file

module _ (g : ℕ → ℕ) (v : Volume) (buf : Block) (o s : ℕ) (ready : Ready g v o s) where
  abbrev va : Volume
  va = with_data g v buf o s

  w0 : Allocated v (new_way g v buf o s).way_3 va
  w0 = a0 g v buf o s ready

  w1 : Allocated va (new_way g v buf o s).way_0 (after_1 va)
  w1 = a1 g v buf o s ready

  w2 : Allocated (after_1 va) (new_way g v buf o s).way_1 (after_2 va)
  w2 = a2 g v buf o s ready

  w3 : Allocated (after_2 va) (new_way g v buf o s).way_2 (after_3 va)
  w3 = a3 g v buf o s ready

  far :
      (i k : ℕ) → (i ≡ 0) ⊎ (v.num_total_blocks + 4 < k) → (i ≡ 0) ⊎ ((x : Block) → Fresh v (k, x))
  far i k (inl z) = inl z
  far i k (inr h) =
      inr (λ x. (λ u. absurd (omega (arith, u.1, h)), λ e. absurd (omega (arith, h, e))))

  pub write_list-Fresh : All (Fresh v) (write_list g v buf o s)
  unfolding metadata_writes updated read_path no_path
  write_list-Fresh =
      let n = numbers g v buf o s in
      let first : get_first_level o ≡ 0 = get_first_level-zero o in
      let paths = updated false n (old_path g v buf o s) no_path (data_num g v buf o s) 0 s in
      (
        (w0.fresh, λ e. absurd (omega (arith, w0.used.0, e))),
        levels-All (Fresh v) (get_first_level o) (get_second_level o) (get_third_level o) n.new_0
            n.new_1 n.new_2 (g 0) (g 1) (g 2) paths.0.block_0 paths.0.block_1 paths.0.block_2
            paths.1.block_0 paths.1.block_1 paths.1.block_2
            (λ x. (λ u. w1.fresh (w0.keeps _ u), λ e. absurd (omega (arith, w1.used.0, e))))
            (λ x. (
              λ u. w2.fresh (w1.keeps _ (w0.keeps _ u)),
              λ e. absurd (omega (arith, w2.used.0, e)),
            ))
            (λ x. (
              λ u. w3.fresh (w2.keeps _ (w1.keeps _ (w0.keeps _ u))),
              λ e. absurd (omega (arith, w3.used.0, e)),
            ))
            (inl first) (far (get_second_level o) (g 1) ready.harmless.0)
            (far (get_third_level o) (g 2) ready.harmless.1),
      )
