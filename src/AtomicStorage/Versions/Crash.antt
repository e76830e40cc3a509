-- ===== src/AtomicStorage/Versions/Crash.antt =====
-- A crash in a write: some of its blocks are in the file, in any order (src/storage.cpp).
use mathlib.Core.List.{Memᴰ}
use mathlib.Core.List.Memᴰ
use chained_block_storage.Base.{
  ℕ, suc, ◌+◌, ◌^◌, ◌<◌, ◌≡◌, ◌≢◌, ap, sym, subst, ◌∙◌, List, [], ◌∷◌, length, All, All-map,
}
use chained_block_storage.AtomicStorage.Block.{Block, get_word}
use chained_block_storage.AtomicStorage.State.{Volume}
use chained_block_storage.AtomicStorage.Write.{write_blocks}
use chained_block_storage.AtomicStorage.Write.Rerouted.{Harmless, Ready}
use chained_block_storage.AtomicStorage.Alloc.{Used}
use chained_block_storage.AtomicStorage.Open.{with_first_block}
use chained_block_storage.AtomicStorage.Versions.Moved.{first-Rooted}
use chained_block_storage.AtomicStorage.Versions.Disk.{
  Disk, Shows, Shows-moved, Implements, Shown-length,
}
use chained_block_storage.AtomicStorage.Versions.Refinement.{Consistent-Ready}
use chained_block_storage.AtomicStorage.Block.Sized.{SizedBlock}
use chained_block_storage.AtomicStorage.Versions.Sized.{
  Sized, SizedWrite, write_blocks-Sized, write_list-Sized,
}
use chained_block_storage.AtomicStorage.Write.Blocks.{
  write_list, Fresh, write_list-Fresh, write_blocks-kept,
}

All-Mem :
    (P : ℕ × Block → Type 0) (x : ℕ × Block) (xs : List (ℕ × Block)) → All P xs → Memᴰ x xs → P x
All-Mem P x [] a m = absurd (Memᴰ.not-nil m)
All-Mem P x (y ∷ ys) a (Memᴰ.head e) = subst P (sym e) a.0
All-Mem P x (y ∷ ys) a (Memᴰ.tail m) = All-Mem P x ys a.1 m

-- What a crash in a write with the next sequence number leaves: `ws` are the blocks of the write that are
-- in the file.
module _ (g : ℕ → ℕ) (v : Volume) (buf : Block) (o : ℕ) (d : Disk) (ws : List (ℕ × Block))
    (i : Implements v d) (harmless : Harmless g o (v.num_total_blocks + 4))
    (small : v.num_total_blocks + 4 < 2 ^ 64)
    (among : All
      (λ x. Memᴰ x (write_list g v buf o (suc (v.last_committed + length d.waiting))))
      ws) where
  crash-Fresh : All (Fresh v) ws
  crash-Fresh =
      let n : length i.uws ≡ length d.waiting = Shown-length v.file i.uws d.waiting i.waiting in
      let ready : Ready g v o (suc (v.last_committed + length d.waiting)) =
        subst (λ k. Ready g v o (suc (v.last_committed + k))) n
          (Consistent-Ready g v o i.uws i.consistent harmless small) in
      let all = write_list g v buf o (suc (v.last_committed + length d.waiting)) in
      All-map (λ x. Memᴰ x all) (Fresh v)
        (λ x m. All-Mem (Fresh v) x all (write_list-Fresh g v buf o _ ready) m) ws among

  pub crash-first : write_blocks ws v.file 0 ≡ v.file 0
  crash-first =
      write_blocks-kept ws v.file 0 (All-map (Fresh v) (λ x. x.0 ≢ 0) (λ x h. h.1) ws crash-Fresh)

  pub crash-kept : (m : ℕ) → Used v m → write_blocks ws v.file m ≡ v.file m
  crash-kept m u =
      write_blocks-kept ws v.file m
        (All-map (Fresh v) (λ x. x.0 ≢ m) (λ x h e. h.0 (subst (Used v) (sym e) u)) ws crash-Fresh)

  pub crash-Sized : Sized v.file → SizedBlock buf → Sized (write_blocks ws v.file)
  crash-Sized s b =
      let all = write_list g v buf o (suc (v.last_committed + length d.waiting)) in
      write_blocks-Sized ws v.file
        (All-map (λ x. Memᴰ x all) SizedWrite
          (λ x m. All-Mem SizedWrite x all (write_list-Sized g v buf o _ s b) m) ws among)
        s

-- A crash in a write leaves the last commit: whichever of the write's blocks are in the file, in
-- whichever order, block 0 that is read at the next start gives the last committed number and a tree
-- with the committed contents, for a write with the next sequence number to a volume that implements
-- a disk, where the block numbers fit and the uninitialised numbers that the code may write to are
-- past the end of the file.
pub write-crash :
    (g : ℕ → ℕ) (v : Volume) (buf : Block) (o : ℕ) (d : Disk) (ws : List (ℕ × Block))
    → Implements v d
    → Harmless g o (v.num_total_blocks + 4)
    → v.num_total_blocks + 4 < 2 ^ 64
    → All (λ x. Memᴰ x (write_list g v buf o (suc (v.last_committed + length d.waiting)))) ws
    → let w = with_first_block (record v { file = write_blocks ws v.file }) in
      (w.last_committed ≡ v.last_committed) × Shows w.file (w.first_level_blocks 0) d.committed
unfolding with_first_block
write-crash g v buf o d ws i harmless small among =
    let first = crash-first g v buf o d ws i harmless small among in
    let kept = crash-kept g v buf o d ws i harmless small among in
    let crashed : Volume = record v { file = write_blocks ws v.file } in
    (
      ap (λ b. get_word b 0) first ∙ i.persisted.0,
      subst (λ r. Shows crashed.file r d.committed)
          (sym (ap (λ b. get_word b 1) first ∙ i.persisted.1))
          (Shows-moved v crashed kept (v.first_level_blocks 0) d.committed
            (first-Rooted v (v.first_level_blocks 0) i.uws i.consistent.linked) i.committed),
    )
