-- ===== src/AtomicStorage/Versions/Sized.antt =====
-- The file keeps blocks of the size that the code writes (src/storage.cpp).
use chained_block_storage.Base.{
  dec_lt, ℕ, ◌%◌, ◌<◌, ◌≡◌, ◌≢◌, refl, ap, sym, subst, ◌∙◌, false, inl, inr, List, [], ◌∷◌, ◌++◌,
  All, All-append, arith, ◌==◌, Bool-cases,
}
use chained_block_storage.AtomicStorage.Block.{Block, block_size, zero_block, set_word}
use chained_block_storage.AtomicStorage.Block.Sized.{
  SizedBlock, zero_block-Sized, set_word-SizedBlock, set_entry-SizedBlock, get_word-SizedBlock,
  file_block_num-SizedBlock,
}
use chained_block_storage.AtomicStorage.Index.{
  num_indirect, num_entries, get_second_level, get_third_level, get_last_level,
}
use chained_block_storage.AtomicStorage.State.{
  File, UncommittedWrite, Volume, write_block, child, leaf, get_free_block_num,
}
use chained_block_storage.AtomicStorage.Write.{
  NewNums, BlockPath, loaded, no_path, read_path, updated, level_writes, metadata_writes,
  write_blocks, write, put_data, update_last, update_indirect_1, update_indirect_0,
}
use chained_block_storage.AtomicStorage.Write.Rerouted.{with_data, data_num, numbers, old_path}
use chained_block_storage.AtomicStorage.Write.Aligned.{get_free_block_num-SameData}
use chained_block_storage.AtomicStorage.Write.Blocks.{write_list, write_list-all}
use chained_block_storage.AtomicStorage.Commit.{first_block, persist}
use chained_block_storage.AtomicStorage.Open.{init_volume, no_roots}
use chained_block_storage.AtomicStorage.Open.AllPlaces.{InRange}
use chained_block_storage.AtomicStorage.Tree.{Place, at_root, at_second, at_third, at_last, number}

abbrev pub Sized : File → Type 0
Sized f = (m : ℕ) → SizedBlock (f m)

abbrev pub SizedWrite : ℕ × Block → Type 0
SizedWrite x = SizedBlock x.1

pub write_block-Sized :
    (f : File) (n : ℕ) (b : Block) → Sized f → SizedBlock b → Sized (write_block f n b)
unfolding write_block
write_block-Sized f n b s h m = elim (Bool-cases (m == n)) [
  | inl here ↦ rw here h
  | inr other ↦ rw other (s m)
]

pub write_blocks-Sized :
    (ws : List (ℕ × Block)) (f : File) → All SizedWrite ws → Sized f → Sized (write_blocks ws f)
unfolding write_blocks
write_blocks-Sized [] f a s = s
write_blocks-Sized ((n, b) ∷ ws) f a s =
    write_blocks-Sized ws (write_block f n b) a.1 (write_block-Sized f n b s a.0)

loaded-Sized : (f : File) (n : ℕ) → Sized f → SizedBlock (loaded f n)
unfolding loaded
loaded-Sized f n s = elim (Bool-cases (n == 0)) [
  | inl none_there ↦ rw none_there zero_block-Sized
  | inr there ↦ rw there (s n)
]

level_writes-Sized :
    (i j n k : ℕ) (b c : Block)
    → SizedBlock b
    → SizedBlock c
    → All SizedWrite (level_writes i j n k b c)
unfolding level_writes
level_writes-Sized i j n k b c h g = elim (Bool-cases (i == j)) [
  | inl same ↦ rw same (h, tt)
  | inr differ ↦ rw differ (h, (g, tt))
]

metadata_writes-Sized :
    (new : NewNums) (p q : BlockPath)
    → SizedBlock p.block_0
    → SizedBlock p.block_1
    → SizedBlock p.block_2
    → SizedBlock q.block_0
    → SizedBlock q.block_1
    → SizedBlock q.block_2
    → All SizedWrite (metadata_writes new p q)
unfolding metadata_writes
metadata_writes-Sized new p q p0 p1 p2 q0 q1 q2 =
    let l0 = level_writes p.offset_0 q.offset_0 new.new_0 new.second_0 p.block_0 q.block_0 in
    let l1 = level_writes p.offset_1 q.offset_1 new.new_1 new.second_1 p.block_1 q.block_1 in
    let l2 = level_writes p.offset_2 q.offset_2 new.new_2 new.second_2 p.block_2 q.block_2 in
    All-append SizedWrite (l0 ++ l1) l2
      (All-append SizedWrite l0 l1
        (level_writes-Sized p.offset_0 q.offset_0 new.new_0 new.second_0 p.block_0 q.block_0 p0 q0)
        (level_writes-Sized p.offset_1 q.offset_1 new.new_1 new.second_1 p.block_1 q.block_1 p1 q1))
      (level_writes-Sized p.offset_2 q.offset_2 new.new_2 new.second_2 p.block_2 q.block_2 p2 q2)

level_bounds :
    (o : ℕ) → (get_second_level o < 512) × (get_third_level o < 512) × (get_last_level o < 256)
unfolding get_second_level get_third_level get_last_level
level_bounds o = (omega arith, omega arith, omega arith)

with_data-Sized :
    (g : ℕ → ℕ) (v : Volume) (buf : Block) (o s : ℕ)
    → Sized v.file
    → SizedBlock buf
    → Sized (with_data g v buf o s).file
unfolding put_data
with_data-Sized g v buf o s h b =
    let w = get_free_block_num v in
    write_block-Sized w.1.file w.0 buf (subst Sized (sym (get_free_block_num-SameData v).file) h) b

pub write_list-Sized :
    (g : ℕ → ℕ) (v : Volume) (buf : Block) (o s : ℕ)
    → Sized v.file
    → SizedBlock buf
    → All SizedWrite (write_list g v buf o s)
unfolding updated update_last update_indirect_1 update_indirect_0 read_path no_path
write_list-Sized g v buf o s h b =
    let bounds = level_bounds o in
    let f = (with_data g v buf o s).file in
    let sized = with_data-Sized g v buf o s h b in
    (
      b,
      metadata_writes-Sized (numbers g v buf o s)
          (updated false (numbers g v buf o s) (old_path g v buf o s) no_path (data_num g v buf o s)
            0 s).0
          no_path (set_word-SizedBlock _ (get_second_level o) _ bounds.0 (loaded-Sized f _ sized))
          (set_word-SizedBlock _ (get_third_level o) _ bounds.1 (loaded-Sized f _ sized))
          (set_entry-SizedBlock _ (get_last_level o) _ s bounds.2 (loaded-Sized f _ sized))
          zero_block-Sized zero_block-Sized zero_block-Sized,
    )

pub write-Sized :
    (g : ℕ → ℕ) (v : Volume) (buf : Block) (o s : ℕ)
    → o % block_size ≡ 0
    → Sized v.file
    → SizedBlock buf
    → Sized (write g v buf o s).file
write-Sized g v buf o s aligned h b =
    subst Sized (sym (write_list-all g v buf o s aligned))
      (write_blocks-Sized (write_list g v buf o s) v.file (write_list-Sized g v buf o s h b) h)

pub persist-Sized : (v : Volume) (uw : UncommittedWrite) → Sized v.file → Sized (persist v uw).file
unfolding persist first_block
persist-Sized v uw h =
    write_block-Sized v.file 0 (first_block v.last_committed v.first_level_blocks) h (
      set_word-SizedBlock (set_word zero_block 0 v.last_committed) 1 (v.first_level_blocks 0)
        (omega arith)
        (set_word-SizedBlock zero_block 0 v.last_committed (omega arith) zero_block-Sized))

pub init_volume-Sized :
    (v : Volume) (f : File) (size : ℕ) → Sized f → Sized (init_volume v f size).file
unfolding init_volume first_block no_roots
init_volume-Sized v f size h = write_block-Sized f 0 (first_block 0 no_roots) h (
    set_word-SizedBlock (set_word zero_block 0 0) 1 0 (omega arith)
      (set_word-SizedBlock zero_block 0 0 (omega arith) zero_block-Sized))

child-InRange : (f : File) (n k : ℕ) → Sized f → child f n k ≢ 0 → k < num_indirect
unfolding child
child-InRange f n k s h = elim (dec_lt k 512) [
  | yes below ↦ below
  | no above ↦
      let none_there = get_word-SizedBlock (f n) k (s n) (omega (arith, above)) in
      absurd (h (ground (arith, none_there)))
]

leaf-InRange : (f : File) (n l : ℕ) → Sized f → leaf f n l ≢ 0 → l < num_entries
unfolding leaf
leaf-InRange f n l s h = elim (dec_lt l 256) [
  | yes below ↦ below
  | no above ↦
      let none_there = file_block_num-SizedBlock (f n) l (s n) (omega (arith, above)) in
      absurd (h (ground (arith, none_there)))
]

child_zero : (f : File) (k : ℕ) → child f 0 k ≡ 0
unfolding child
child_zero f k = refl

leaf_zero : (f : File) (l : ℕ) → leaf f 0 l ≡ 0
unfolding leaf
leaf_zero f l = refl

third-InRange :
    (f : File) (r j k : ℕ)
    → Sized f
    → number f r (at_third j k) ≢ 0
    → (j < num_indirect) × (k < num_indirect)
third-InRange f r j k s h = (
  child-InRange f r j s (λ z. h (ap (λ n. child f n k) z ∙ child_zero f k)),
  child-InRange f (child f r j) k s h,
)

-- What is in the tree is at a place that a block has.
pub number-InRange : (f : File) (r : ℕ) (p : Place) → Sized f → number f r p ≢ 0 → InRange p
number-InRange f r at_root s h = tt
number-InRange f r (at_second j) s h = child-InRange f r j s h
number-InRange f r (at_third j k) s h = third-InRange f r j k s h
number-InRange f r (at_last j k l) s h =
    let third = third-InRange f r j k s (λ z. h (ap (λ n. leaf f n l) z ∙ leaf_zero f l)) in
    (third.0, third.1, leaf-InRange f (child f (child f r j) k) l s h)
