-- ===== src/AtomicStorage/Versions/Reads.antt =====
-- The new volume, and what the reads give of the versions (src/storage.cpp).
use chained_block_storage.Base.{
  ℕ, zero, suc, ◌+◌, ◌-◌, ◌%◌, ◌/◌, ◌^◌, ◌≤◌, ◌<◌, ◌≡◌, ◌≢◌, refl, ap, sym, subst, ◌∙◌, none, some,
  true, List, [], ◌∷◌, length, arith, ◌==◌,
}
use chained_block_storage.AtomicStorage.Block.{Block, block_size, zero_block, set_word}
use chained_block_storage.AtomicStorage.Block.Words.{get_word-set_word, get_word-set_word_ne}
use chained_block_storage.AtomicStorage.Index.{get_first_level, get_first_level-zero}
use chained_block_storage.AtomicStorage.State.{
  File, UncommittedWrite, Volume, write_block, child, leaf, lookup, block_at, read_aligned, read,
}
use chained_block_storage.AtomicStorage.Write.{write}
use chained_block_storage.AtomicStorage.Write.Rerouted.{Harmless, result}
use chained_block_storage.AtomicStorage.Write.Contents.{
  content, BlockOffset, content-on, lookup-nonzero,
}
use chained_block_storage.AtomicStorage.Commit.{
  first_block, commit, block_below, read_uncommitted, read_sequence_number,
}
use chained_block_storage.AtomicStorage.Open.{count_up, no_roots, init_volume, close_volume}
use chained_block_storage.AtomicStorage.Tree.{Place, at_root, at_second, at_third, at_last, number}
use chained_block_storage.AtomicStorage.Versions.{Rooted, Consistent, last_root}
use chained_block_storage.AtomicStorage.Versions.Disk.{
  Image, Disk, Shows, Persisted, Implements, Shown-length,
}
use chained_block_storage.AtomicStorage.Versions.Write.{assigned}
use chained_block_storage.AtomicStorage.Versions.Refinement.{commit-Implements, write-NewVersion}

pub number-zero : (f : File) (p : Place) → number f 0 p ≡ 0
unfolding child leaf
number-zero f at_root = refl
number-zero f (at_second j) = refl
number-zero f (at_third j k) = refl
number-zero f (at_last j k l) = refl

zero-Rooted : (v : Volume) → Rooted v 0
zero-Rooted v = record {
  in_use = λ p h. absurd (h (number-zero v.file p));
  unique = λ p q h e. absurd (h (number-zero v.file p));
}

zero-Shows : (f : File) → Shows f 0 (λ _. zero_block)
unfolding lookup block_at child leaf
zero-Shows f o ho = refl

first_block-Persisted : (f : File) → Persisted (write_block f 0 (first_block 0 no_roots)) 0 0
unfolding write_block first_block no_roots
first_block-Persisted f = (
  get_word-set_word_ne (set_word zero_block 0 0) 1 0 0 (λ e. absurd (omega (arith, e)))
      ∙ get_word-set_word zero_block 0 0 (omega arith),
  get_word-set_word (set_word zero_block 0 0) 1 0 (omega arith),
)

count_up-none : (n : ℕ) → n ≡ 0 → count_up n 1 ≡ []
unfolding count_up
count_up-none zero e = refl
count_up-none (suc n) e = absurd (omega (arith, e))

pub init_volume-Consistent :
    (v : Volume) (file : File) (size : ℕ)
    → size / block_size ≤ 1
    → Consistent (init_volume (close_volume v) file size) []
unfolding init_volume close_volume no_roots
init_volume-Consistent v file size h =
    let none_free : size / block_size - 1 ≡ 0 = omega (arith, h) in
    let free : count_up (size / block_size - 1) 1 ≡ [] =
      count_up-none (size / block_size - 1) none_free in
    record {
      sane = record { distinct = rw free tt; bounded = rw free tt };
      none_committed = refl;
      stored = tt;
      linked = zero-Rooted (init_volume (close_volume v) file size);
    }

-- A new volume implements a disk of zeros.
pub init_volume-Implements :
    (v : Volume) (file : File) (size : ℕ)
    → size / block_size ≤ 1
    → Implements
        (init_volume (close_volume v) file size)
        (record { committed = λ _. zero_block; waiting = [] })
unfolding init_volume close_volume no_roots
init_volume-Implements v file size h = record {
  uws = [];
  consistent = init_volume-Consistent v file size h;
  committed = zero-Shows (init_volume (close_volume v) file size).file;
  waiting = tt;
  persisted = first_block-Persisted file;
}

read-tree :
    (v : Volume) (o : ℕ) (buf : Block)
    → o % block_size ≡ 0
    → v.pending_blocks o ≡ none
    → read v o buf ≡ content v.file (v.first_level_blocks 0) o
unfolding read read_aligned
read-tree v o buf h p =
    let one : (o % block_size == 0) ≡ true = ground (arith, h) in
    let first : get_first_level o ≡ 0 = get_first_level-zero o in
    let through : read_aligned v o ≡ content v.file (v.first_level_blocks (get_first_level o)) o =
      ap
        (λ x. elim x [
          | some n ↦ v.file n
          | none ↦ content v.file (v.first_level_blocks (get_first_level o)) o
        ])
        p in
    rw one through ∙ ap (λ i. content v.file (v.first_level_blocks i) o) first

-- A read of a block of the volume gives the committed contents where no write of that block is pending.
pub read-Implements :
    (v : Volume) (d : Disk) (o : ℕ) (buf : Block)
    → Implements v d
    → BlockOffset o
    → v.pending_blocks o ≡ none
    → read v o buf ≡ d.committed o
read-Implements v d o buf i ho p = read-tree v o buf ho.0 p ∙ i.committed o ho

block_below-content : (f : File) (r o : ℕ) → lookup f r o ≢ 0 → block_below f r o ≡ content f r o
unfolding block_below lookup block_at child leaf
block_below-content f r o h = ground (arith, h)

-- A new volume in a file of at most one block is a disk of zeros without waiting writes, whatever was
-- open before it was closed, and a read of any of its blocks gives zeros.
pub init_volume-read :
    (v : Volume) (file : File) (size o : ℕ) (buf : Block)
    → size / block_size ≤ 1
    → BlockOffset o
    → let w = init_volume (close_volume v) file size in
      Implements w (record { committed = λ _. zero_block; waiting = [] })
      × (read w o buf ≡ zero_block)
unfolding init_volume close_volume
init_volume-read v file size o buf h ho =
    let i = init_volume-Implements v file size h in
    (
      i,
      read-Implements (init_volume (close_volume v) file size)
          (record { committed = λ _. zero_block; waiting = [] }) o buf i ho refl,
    )

-- After a commit of the next sequence number a read at its offset gives its contents, whatever waits for
-- the same block: at the offset of a block of the volume, where the numbers fit in 64 bits.
pub commit-read :
    (v : Volume) (o : ℕ) (buf : Block) (d0 e : Image) (ds : List Image)
    → Implements v (record { committed = d0; waiting = e ∷ ds })
    → suc v.last_committed < 2 ^ 64
    → v.num_total_blocks < 2 ^ 64
    → BlockOffset o
    → (v' : Volume) × (commit v (suc v.last_committed) o ≡ some v') × (read v' o buf ≡ e o)
commit-read v o buf d0 e ds i c n ho =
    let (v', done, last, cleared, i', _) = commit-Implements v o d0 e ds i c n in
    let start : o - o % block_size ≡ o = omega (arith, ho.0) in
    (
      v',
      done,
      read-Implements v' (record { committed = e; waiting = ds }) o buf i' ho
          (ap v'.pending_blocks (sym start) ∙ cleared),
    )

read_uncommitted-one :
    (v : Volume) (o : ℕ) (buf : Block) (uw : UncommittedWrite)
    → o % block_size ≡ 0
    → read_uncommitted v o buf uw ≡ block_below v.file uw.new_metadata_offset_0 o
unfolding read_uncommitted
read_uncommitted-one v o buf uw aligned =
    let one : (o % block_size == 0) ≡ true = ground (arith, aligned) in rw one refl

read_sequence_number-one :
    (v : Volume) (s o : ℕ) (buf : Block) (uw : UncommittedWrite)
    → v.uncommitted_writes s ≡ some uw
    → o % block_size ≡ 0
    → read_sequence_number v s o buf ≡ some (block_below v.file uw.new_metadata_offset_0 o)
unfolding read_sequence_number
read_sequence_number-one v s o buf uw h aligned =
    ap (λ x. elim x [ none ↦ none | some w ↦ some (read_uncommitted v o buf w) ]) h
    ∙ ap some (read_uncommitted-one v o buf uw aligned)

-- The contents of a write of a block of the volume can be read by its sequence number, the next one,
-- while it waits: on a volume that implements a disk, where the block numbers fit and the uninitialised
-- numbers that the code may write to are past the end of the file.
pub write-read_sequence_number :
    (g : ℕ → ℕ) (v : Volume) (buf : Block) (o : ℕ) (d : Disk) (b : Block)
    → Implements v d
    → BlockOffset o
    → Harmless g o (v.num_total_blocks + 4)
    → v.num_total_blocks + 4 < 2 ^ 64
    → let s = suc (v.last_committed + length d.waiting) in
      read_sequence_number (write g v buf o s) s o b ≡ some buf
write-read_sequence_number g v buf o d b i ho harmless small =
    let s = suc (v.last_committed + length i.uws) in
    let n : length i.uws ≡ length d.waiting = Shown-length v.file i.uws d.waiting i.waiting in
    let uw = (result g v buf o s).0 in
    let r = last_root (v.first_level_blocks 0) i.uws in
    let v' = write g v buf o s in
    let nv = write-NewVersion g v buf o i.uws i.consistent harmless small ho.0 in
    let stored : v'.uncommitted_writes s ≡ some uw =
      ap (λ m. m s) nv.uncommitted ∙ assigned v.uncommitted_writes s (some uw) in
    subst
      (λ k.
        read_sequence_number (write g v buf o (suc (v.last_committed + k)))
          (suc (v.last_committed + k)) o b
        ≡ some buf)
      n
      (read_sequence_number-one v' s o b uw stored ho.0
        ∙ ap some (
            block_below-content v'.file uw.new_metadata_offset_0 o
              (lookup-nonzero v v' s r o buf uw nv)
            ∙ content-on v v' s r o buf uw nv))
