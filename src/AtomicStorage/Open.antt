-- ===== src/AtomicStorage/Open.antt =====
-- The start and the end of the storage (src/storage.cpp).
pub mod Unused
pub mod Sorted
pub mod Places
pub mod AllPlaces
pub mod Collected
use chained_block_storage.Base.{
  ℕ, zero, suc, ◌+◌, ◌-◌, ◌/◌, Bool, true, false, Option, none, some, List, [], ◌∷◌, ◌++◌, ◌==◌,
  leb, if◌then◌else◌,
}
use chained_block_storage.AtomicStorage.Block.{
  Block, block_size, zero_block, get_word, file_block_num,
}
use chained_block_storage.AtomicStorage.State.{File, UncommittedWrite, Volume, write_block}
use chained_block_storage.AtomicStorage.Commit.{first_block, walk}

-- `std::sort`.
unfoldable pub insert_sorted : ℕ → List ℕ → List ℕ
insert_sorted n [] = n ∷ []
insert_sorted n (k ∷ ks) = if leb n k then n ∷ k ∷ ks else k ∷ insert_sorted n ks

unfoldable pub sort : List ℕ → List ℕ
unfolding insert_sorted
sort [] = []
sort (n ∷ ns) = insert_sorted n (sort ns)

-- The blocks that the tree of the volume has in use.
unfoldable pub used_blocks : Volume → List ℕ
unfolding walk
used_blocks v =
    walk v (λ n. n ∷ [])
      (λ n l offset. let k = file_block_num (v.file n) l in if k == 0 then [] else k ∷ [])

-- The loop over `n` block numbers from `block_num` on, with the rest of the sorted used blocks: the
-- numbers that are pushed to `free_blocks`.
unfoldable pub unused : ℕ → ℕ → List ℕ → List ℕ
unused zero block_num used = []
unused (suc n) block_num [] = block_num ∷ unused n (block_num + 1) []
unused (suc n) block_num (k ∷ used) =
    let skip = unused n (block_num + 1) used in
    let push = unused n (block_num + 1) (k ∷ used) in
    if block_num == k then skip else block_num ∷ push

-- `read_block(&first_block, 0)`, on the volume as it is.
unfoldable pub with_first_block : Volume → Volume
with_first_block v = record v {
  last_committed = get_word (v.file 0) 0;
  first_level_blocks = λ i. get_word (v.file 0) (1 + i);
}

unfoldable pub no_roots : ℕ → ℕ
no_roots i = 0

-- The first block and the number of blocks, for a file of `total` blocks, of which it is asked whether
-- there are none. The globals that `open_volume` does not set are those of `v`.
unfoldable pub start_volume : Bool → Volume → File → ℕ → Volume
unfolding with_first_block no_roots first_block write_block
start_volume true v file total = record v {
  file = write_block file 0 (first_block 0 no_roots);
  last_committed = 0;
  first_level_blocks = no_roots;
  num_total_blocks = 1;
}
start_volume false v file total =
    with_first_block (record v { file = file; num_total_blocks = total })

-- The used blocks, and the free ones that are pushed.
unfoldable pub find_unused : Volume → Volume
unfolding used_blocks sort unused
find_unused v = record v {
  free_blocks = v.free_blocks ++ unused (v.num_total_blocks - 1) 1 (sort (used_blocks v));
}

-- `open_volume` on a file of `size` bytes.
unfoldable pub open_volume : Volume → File → ℕ → Volume
unfolding start_volume find_unused
open_volume v file size =
    let total = (size + 1) / block_size in find_unused (start_volume (total == 0) v file total)

-- The numbers from `i` on.
unfoldable pub count_up : ℕ → ℕ → List ℕ
count_up zero i = []
count_up (suc n) i = i ∷ count_up n (i + 1)

-- `init_volume` on a file that has `size` bytes when it is asked for, after block 0 is written.
unfoldable pub init_volume : Volume → File → ℕ → Volume
unfolding count_up no_roots first_block write_block
init_volume v file size = record v {
  file = write_block file 0 (first_block 0 no_roots);
  last_committed = 0;
  first_level_blocks = no_roots;
  num_total_blocks = 1;
  free_blocks = v.free_blocks ++ count_up (size / block_size - 1) 1;
}

-- `close_volume`, of which the file remains.
unfoldable pub close_volume : Volume → Volume
close_volume v = record v {
  num_total_blocks = 0;
  uncommitted_writes = λ _. none;
  pending_blocks = λ _. none;
  free_blocks = [];
}
