-- ===== src/AtomicStorage/Write/Aligned.antt =====
-- What a write of one whole block does to the file and the globals, step by step.
use chained_block_storage.Base.{
  ℕ, ◌^◌, ◌<◌, ◌≡◌, ◌≢◌, refl, ap, ◌⊎◌, inl, inr, false, List, [], ◌∷◌, ◌++◌, ◌==◌, arith,
  if◌then◌else◌, Bool-cases, ==_iff,
}
use chained_block_storage.AtomicStorage.Block.{
  Block, zero_block, get_word, set_word, file_block_num, set_entry,
}
use chained_block_storage.AtomicStorage.Block.Words.{
  get_word-set_word, get_word-set_word_ne, file_block_num-set_entry, file_block_num-set_entry_ne,
  get_word-zero, file_block_num-zero,
}
use chained_block_storage.AtomicStorage.Index.{
  get_first_level, get_second_level, get_third_level, get_last_level, get_first_level-zero,
}
use chained_block_storage.AtomicStorage.State.{
  File, Volume, write_block, child, leaf, next_block_num, get_free_block_num,
}
use chained_block_storage.AtomicStorage.Write.{
  BlockPath, no_path, loaded, read_path, new_block_nums, NewNums, new_nums, updated, update_last,
  update_indirect_1, update_indirect_0, level_writes, metadata_writes, write_blocks, write_numbered,
  write_paths,
}

-- A new number changes the free numbers only.
pub record SameData (v w : Volume) : Type 0 where
  pub file : w.file ≡ v.file
  pub uncommitted : w.uncommitted_writes ≡ v.uncommitted_writes
  pub pending : w.pending_blocks ≡ v.pending_blocks
  pub roots : w.first_level_blocks ≡ v.first_level_blocks
  pub last : w.last_committed ≡ v.last_committed

next_block_num-SameData : (v : Volume) (free : List ℕ) → SameData v (next_block_num free v).1
unfolding next_block_num
next_block_num-SameData v [] = record {
  file = refl;
  uncommitted = refl;
  pending = refl;
  roots = refl;
  last = refl;
}
next_block_num-SameData v (n ∷ free) = record {
  file = refl;
  uncommitted = refl;
  pending = refl;
  roots = refl;
  last = refl;
}

pub get_free_block_num-SameData : (v : Volume) → SameData v (get_free_block_num v).1
unfolding get_free_block_num
get_free_block_num-SameData v = next_block_num-SameData v v.free_blocks

new_block_nums-one :
    (g a b : ℕ) (v : Volume)
    → new_block_nums false g a b v ≡ (
      (get_free_block_num v).0,
      (if a == b then (get_free_block_num v).0 else g),
      (get_free_block_num v).1,
    )
unfolding new_block_nums
new_block_nums-one g a b v = elim (Bool-cases (a == b)) [
  | inl same ↦ rw same refl
  | inr differ ↦ rw differ refl
]

-- The volumes after the new numbers of the three levels.
abbrev pub after_1 : Volume → Volume
after_1 v = (get_free_block_num v).1

abbrev pub after_2 : Volume → Volume
after_2 v = (get_free_block_num (after_1 v)).1

abbrev pub after_3 : Volume → Volume
after_3 v = (get_free_block_num (after_2 v)).1

abbrev pub one_nums : (ℕ → ℕ) → BlockPath → BlockPath → Volume → NewNums
one_nums g p q v =
    let n0 = (get_free_block_num v).0 in
    let n1 = (get_free_block_num (after_1 v)).0 in
    let n2 = (get_free_block_num (after_2 v)).0 in
    record {
      new_0 = n0;
      new_1 = n1;
      new_2 = n2;
      second_0 = if p.offset_0 == q.offset_0 then n0 else g 0;
      second_1 = if p.offset_1 == q.offset_1 then n1 else g 1;
      second_2 = if p.offset_2 == q.offset_2 then n2 else g 2;
    }

new_nums-one :
    (g : ℕ → ℕ) (p q : BlockPath) (v : Volume)
    → new_nums false g p q v ≡ (one_nums g p q v, after_3 v)
unfolding new_nums
new_nums-one g p q v =
    rw
      (
        new_block_nums-one (g 0) p.offset_0 q.offset_0 v,
        new_block_nums-one (g 1) p.offset_1 q.offset_1 (after_1 v),
        new_block_nums-one (g 2) p.offset_2 q.offset_2 (after_2 v),
      )
      refl

-- The file after the writes of the three levels of one block, at a number that the writes of
-- uninitialised numbers do not hit.
pub level_writes-file :
    (a1 a2 n0 n1 n2 g0 g1 g2 : ℕ) (b0 b1 b2 : Block) (f : File) (m : ℕ)
    → (a1 ≡ 0) ⊎ (m ≢ g1)
    → (a2 ≡ 0) ⊎ (m ≢ g2)
    → write_blocks
        (level_writes 0 0 n0 g0 b0 zero_block
          ++ level_writes a1 0 n1 g1 b1 zero_block
          ++ level_writes a2 0 n2 g2 b2 zero_block)
        f
        m
      ≡ (if m == n2 then b2 else if m == n1 then b1 else if m == n0 then b0 else f m)
unfolding level_writes write_blocks write_block
level_writes-file a1 a2 n0 n1 n2 g0 g1 g2 b0 b1 b2 f m h k = elim (Bool-cases (a1 == 0)) [
  | inl x ↦ elim (Bool-cases (a2 == 0)) [
    | inl y ↦ rw (x, y) (ground arith)
    | inr y ↦ rw (x, y) (ground (arith, k))
  ]
  | inr x ↦ elim (Bool-cases (a2 == 0)) [
    | inl y ↦ rw (x, y) (ground (arith, h))
    | inr y ↦ rw (x, y) (ground (arith, h, k))
  ]
]

-- A block on the way, as a copy with one number put in.
pub loaded-set_word :
    (f : File) (r j k n : ℕ)
    → n < 2 ^ 64
    → get_word (set_word (loaded f r) j n) k ≡ (if k == j then n else child f r k)
unfolding loaded child
loaded-set_word f r j k n h = elim (Bool-cases (k == j)) [
  | inl same ↦ rw (same, (==_iff k j).0 same) (get_word-set_word _ j n h)
  | inr differ ↦
      let other =
        get_word-set_word_ne (if r == 0 then zero_block else f r) j k n
          (λ e. absurd (ground arith)) in
      ground (arith, other, get_word-zero k)
]

pub loaded-set_entry :
    (f : File) (r j k n s : ℕ)
    → n < 2 ^ 64
    → file_block_num (set_entry (loaded f r) j n s) k ≡ (if k == j then n else leaf f r k)
unfolding loaded leaf
loaded-set_entry f r j k n s h = elim (Bool-cases (k == j)) [
  | inl same ↦ rw (same, (==_iff k j).0 same) (file_block_num-set_entry _ j n s h)
  | inr differ ↦
      let other =
        file_block_num-set_entry_ne (if r == 0 then zero_block else f r) j k n s
          (λ e. absurd (ground arith)) in
      ground (arith, other, file_block_num-zero k)
]

pub write_paths-one :
    (g : ℕ → ℕ) (v : Volume) (s d : ℕ) (p q : BlockPath)
    → write_paths false g v s d 0 p q ≡ write_numbered false s d 0 p q (one_nums g p q v, after_3 v)
unfolding write_paths
write_paths-one g v s d p q = ap (write_numbered false s d 0 p q) (new_nums-one g p q v)

-- The file after `write_numbered` for one block, at such a number.
pub write_numbered-file :
    (v : Volume) (new : NewNums) (s d r o m : ℕ) (f : File)
    → (get_second_level o ≡ 0) ⊎ (m ≢ new.second_1)
    → (get_third_level o ≡ 0) ⊎ (m ≢ new.second_2)
    → (write_numbered false s d 0 (read_path f r o) no_path (new, v)).1.file m ≡ (
        if m == new.new_2
        then set_entry (read_path f r o).block_2 (get_last_level o) d s
        else if m == new.new_1
        then set_word (read_path f r o).block_1 (get_third_level o) new.new_2
        else if m == new.new_0
        then set_word (read_path f r o).block_0 (get_second_level o) new.new_1
        else v.file m)
unfolding write_numbered updated update_last update_indirect_1 update_indirect_0 read_path no_path
    metadata_writes
write_numbered-file v new s d r o m f h k =
    let first : get_first_level o ≡ 0 = get_first_level-zero o in
    rw first (
      level_writes-file (get_second_level o) (get_third_level o) new.new_0 new.new_1 new.new_2
        new.second_0 new.second_1 new.second_2 _ _ _ v.file m h k)
