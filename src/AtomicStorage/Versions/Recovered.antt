-- ===== src/AtomicStorage/Versions/Recovered.antt =====
-- The start of the storage after a crash in a write (src/storage.cpp).
use mathlib.Core.List.{Memᴰ}
use chained_block_storage.Base.{
  ℕ, suc, ◌+◌, ◌/◌, ◌%◌, ◌^◌, ◌≤◌, ◌<◌, ◌≡◌, ◌≢◌, ap, sym, subst, ◌∙◌, false, List, [], length, All,
  arith, ◌==◌,
}
use chained_block_storage.AtomicStorage.Block.{Block, block_size, get_word}
use chained_block_storage.AtomicStorage.Block.Sized.{SizedBlock}
use chained_block_storage.AtomicStorage.State.{File, Volume}
use chained_block_storage.AtomicStorage.Write.{write, write_blocks}
use chained_block_storage.AtomicStorage.Write.Blocks.{write_list, write_list-all}
use chained_block_storage.AtomicStorage.Write.Rerouted.{Harmless}
use chained_block_storage.AtomicStorage.Alloc.{Used}
use chained_block_storage.AtomicStorage.Open.{
  with_first_block, start_volume, find_unused, open_volume, close_volume,
}
use chained_block_storage.AtomicStorage.Tree.{Place, number}
use chained_block_storage.AtomicStorage.Tree.Unique.{Unique}
use chained_block_storage.AtomicStorage.Versions.{Rooted}
use chained_block_storage.AtomicStorage.Versions.Moved.{first-Rooted, number-moved}
use chained_block_storage.AtomicStorage.Versions.Disk.{Disk, Shows, Shows-moved, Implements}
use chained_block_storage.AtomicStorage.Versions.Sized.{Sized}
use chained_block_storage.AtomicStorage.Versions.Restart.{
  StoredTree, AllAccounted, open_volume-Implements,
}
use chained_block_storage.AtomicStorage.Versions.Crash.{crash-first, crash-kept, crash-Sized}

-- The blocks of the tree of `r` are in a file of `total` blocks, and so is block 0.
pub record Reaches (f : File) (r total : ℕ) : Type 0 where
  pub some_blocks : 1 ≤ total
  pub in_file : (p : Place) → number f r p ≢ 0 → number f r p < total

-- A file in which block 0 and the blocks in use are as before has the tree of the last commit.
kept-StoredTree :
    (v : Volume) (f : File) (total : ℕ) (d : Disk)
    → Implements v d
    → f 0 ≡ v.file 0
    → ((m : ℕ) → Used v m → f m ≡ v.file m)
    → Sized f
    → Reaches v.file (v.first_level_blocks 0) total
    → StoredTree f total d.committed
kept-StoredTree v f total d i first kept sized reaches =
    let r = v.first_level_blocks 0 in
    let w : Volume = record v { file = f } in
    let t : Rooted v r = first-Rooted v r i.uws i.consistent.linked in
    let same : (p : Place) → number f r p ≡ number v.file r p = number-moved v w kept r t in
    let root : r ≡ get_word (f 0) 1 = sym (ap (λ b. get_word b 1) first ∙ i.persisted.1) in
    record {
      sized = sized;
      within =
          subst (λ k. (p : Place) → number f k p ≢ 0 → number f k p < total) root
            (λ p h.
              subst (λ n. n < total) (sym (same p)) (reaches.in_file p (λ z. h (same p ∙ z))));
      unique =
          subst (Unique f) root
            (λ p q h e. t.unique p q (λ z. h (same p ∙ z)) (sym (same p) ∙ e ∙ same q));
      shows =
          subst (λ k. Shows f k d.committed) root
            (Shows-moved v w kept r d.committed t i.committed);
    }

open_volume-last_committed :
    (v : Volume) (f : File) (size : ℕ)
    → 1 ≤ (size + 1) / block_size
    → (open_volume (close_volume v) f size).last_committed ≡ get_word (f 0) 0
unfolding open_volume start_volume find_unused with_first_block close_volume
open_volume-last_committed v f size h =
    let total = (size + 1) / block_size in
    let some_blocks : (total == 0) ≡ false = ground (arith, h) in
    ap (λ b. (find_unused (start_volume b (close_volume v) f total)).last_committed) some_blocks

-- The storage that is started after a crash in a write implements the disk with the committed contents
-- and nothing waiting, at the last committed sequence number, and every block of the file but block 0
-- that is not in the tree of those contents is free: whichever of the write's blocks are in the file,
-- in whichever order. The process that starts has nothing open. The write is one with the next
-- sequence number, of a block of 4096 bytes at the offset of a block, to a volume that implements a
-- disk, so the blocks are those that the call writes, in its order; the block numbers fit, the
-- uninitialised numbers that the code may write to are past the end of the file, and the file of the
-- crash, of `size` bytes, has block 0 and the blocks of the committed contents.
pub crash-open_volume :
    (g : ℕ → ℕ) (v u : Volume) (buf : Block) (o : ℕ) (d : Disk) (ws : List (ℕ × Block)) (size : ℕ)
    → Implements v d
    → Sized v.file
    → SizedBlock buf
    → o % block_size ≡ 0
    → Harmless g o (v.num_total_blocks + 4)
    → v.num_total_blocks + 4 < 2 ^ 64
    → All (λ x. Memᴰ x (write_list g v buf o (suc (v.last_committed + length d.waiting)))) ws
    → Reaches v.file (v.first_level_blocks 0) ((size + 1) / block_size)
    → let all = write_list g v buf o (suc (v.last_committed + length d.waiting)) in
      let w = open_volume (close_volume u) (write_blocks ws v.file) size in
      ((write g v buf o (suc (v.last_committed + length d.waiting))).file ≡ write_blocks all v.file)
      × (w.last_committed ≡ v.last_committed)
      × Implements w (record { committed = d.committed; waiting = [] })
      × AllAccounted w
crash-open_volume g v u buf o d ws size i sized b aligned harmless small among reaches =
    let f = write_blocks ws v.file in
    let first = crash-first g v buf o d ws i harmless small among in
    let kept = crash-kept g v buf o d ws i harmless small among in
    let f_sized = crash-Sized g v buf o d ws i harmless small among sized b in
    let t = kept-StoredTree v f ((size + 1) / block_size) d i first kept f_sized reaches in
    let done = open_volume-Implements u f size d.committed t reaches.some_blocks in
    (
      write_list-all g v buf o (suc (v.last_committed + length d.waiting)) aligned,
      open_volume-last_committed u f size reaches.some_blocks
          ∙ ap (λ c. get_word c 0) first
          ∙ i.persisted.0,
      done.0,
      done.1,
    )
