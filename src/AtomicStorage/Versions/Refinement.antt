-- ===== src/AtomicStorage/Versions/Refinement.antt =====
-- Writes and commits of the storage do on its contents what the disk does (src/storage.cpp).
use chained_block_storage.Base.{
  ℕ, suc, ◌+◌, ◌-◌, ◌%◌, ◌^◌, ◌<◌, ◌≡◌, refl, ap, sym, subst, ◌∙◌, inl, inr, none, some, List, [],
  ◌∷◌, ◌++◌, length, arith, ◌==◌, if◌then◌else◌, Bool-cases,
}
use chained_block_storage.AtomicStorage.Block.{Block, block_size, get_word}
use chained_block_storage.AtomicStorage.Block.Words.{get_word-set_word, get_word-set_word_ne}
use chained_block_storage.AtomicStorage.State.{UncommittedWrite, Volume, write_block, assign}
use chained_block_storage.AtomicStorage.Write.{write, base_0}
use chained_block_storage.AtomicStorage.Write.Rerouted.{Harmless, Ready, result}
use chained_block_storage.AtomicStorage.Write.NewVersion.{
  NewVersion, write_aligned-NewVersion, write-aligned,
}
use chained_block_storage.AtomicStorage.Write.Contents.{BlockOffset, content-new}
use chained_block_storage.AtomicStorage.Commit.{commit, first_block, persist}
use chained_block_storage.AtomicStorage.Alloc.{Used}
use chained_block_storage.AtomicStorage.Tree.{at_root, number}
use chained_block_storage.AtomicStorage.Versions.{Rooted, Consistent, last_root}
use chained_block_storage.AtomicStorage.Versions.Moved.{first-Rooted}
use chained_block_storage.AtomicStorage.Versions.Stored.{base_0-last_root}
use chained_block_storage.AtomicStorage.Versions.Write.{last-Rooted, NewVersion-Consistent}
use chained_block_storage.AtomicStorage.Versions.Commit.{
  installed, after, after-kept, after-root, after-Consistent, commit-after,
}
use chained_block_storage.AtomicStorage.Versions.Disk.{
  Image, Disk, last_image, put, disk_write, disk_commit, Shows, Shown, Persisted, Implements,
  Shown-length, Shows-moved, Shown-moved, Shown-append, Shown-last,
}

-- What a write on the last version needs.
pub Consistent-Ready :
    (g : ℕ → ℕ) (v : Volume) (o : ℕ) (uws : List UncommittedWrite)
    → Consistent v uws
    → Harmless g o (v.num_total_blocks + 4)
    → v.num_total_blocks + 4 < 2 ^ 64
    → Ready g v o (suc (v.last_committed + length uws))
Consistent-Ready g v o uws con harmless small =
    let base = base_0-last_root v uws o con in
    let t = last-Rooted v (v.first_level_blocks 0) uws con.linked in
    record {
      sane = con.sane;
      in_use = λ p h.
          subst (λ r. Used v (number v.file r p)) (sym base)
            (t.in_use p (λ z. h (ap (λ r. number v.file r p) base ∙ z)));
      harmless = harmless;
      small = small;
    }

-- The version that a write adds.
pub write-NewVersion :
    (g : ℕ → ℕ) (v : Volume) (buf : Block) (o : ℕ) (uws : List UncommittedWrite)
    → Consistent v uws
    → Harmless g o (v.num_total_blocks + 4)
    → v.num_total_blocks + 4 < 2 ^ 64
    → o % block_size ≡ 0
    → let s = suc (v.last_committed + length uws) in
      NewVersion v s
        (last_root (v.first_level_blocks 0) uws)
        o
        buf
        (result g v buf o s).0
        (write g v buf o s)
write-NewVersion g v buf o uws con harmless small aligned =
    let s = suc (v.last_committed + length uws) in
    let ready = Consistent-Ready g v o uws con harmless small in
    let nv = write_aligned-NewVersion g v buf o s ready aligned in
    subst (λ r. NewVersion v s r o buf (result g v buf o s).0 (write g v buf o s))
      (base_0-last_root v uws o con)
      (subst (NewVersion v s (base_0 v s o) o buf (result g v buf o s).0)
        (sym (write-aligned g v buf o s aligned)) nv)

NewVersion-Implements :
    (v v' : Volume) (o : ℕ) (buf : Block) (uw : UncommittedWrite) (d : Disk) (i : Implements v d)
    → BlockOffset o
    → NewVersion v
        (suc (v.last_committed + length i.uws))
        (last_root (v.first_level_blocks 0) i.uws)
        o
        buf
        uw
        v'
    → Implements v' (disk_write d buf o)
NewVersion-Implements v v' o buf uw d i ho nv =
    let r = v.first_level_blocks 0 in
    let con = i.consistent in
    let t = last-Rooted v r i.uws con.linked in
    let s = suc (v.last_committed + length i.uws) in
    let last = Shown-last v.file r i.uws d.committed d.waiting i.committed i.waiting in
    let new : Shows v'.file uw.new_metadata_offset_0
        (put (last_image d.committed d.waiting) o buf) =
      λ p hp.
        content-new v v' s (last_root r i.uws) o buf uw nv p ho hp t.in_use
        ∙ ap (λ (b : Block). if p == o then buf else b) (last p hp) in
    record {
      uws = i.uws ++ uw ∷ [];
      consistent = NewVersion-Consistent v v' o buf uw i.uws con nv;
      committed =
          subst (λ f. Shows v'.file (f 0) d.committed) (sym nv.roots)
            (Shows-moved v v' nv.kept r d.committed (first-Rooted v r i.uws con.linked)
              i.committed);
      waiting =
          Shown-append v'.file i.uws d.waiting uw (put (last_image d.committed d.waiting) o buf)
            (Shown-moved v v' nv.kept r i.uws d.waiting con.linked i.waiting) new;
      persisted = (
        ap (λ b. get_word b 0) nv.first_block ∙ i.persisted.0 ∙ sym nv.last,
        ap (λ b. get_word b 1) nv.first_block ∙ i.persisted.1 ∙ ap (λ f. f 0) (sym nv.roots),
      );
    }

-- A write adds the contents of the last version with the written block, and no other version changes:
-- for a block of the volume, on a volume that implements a disk, with the next sequence number, where
-- the block numbers fit and the uninitialised numbers that the code may write to are past the end of
-- the file.
pub write-Implements :
    (g : ℕ → ℕ) (v : Volume) (buf : Block) (o : ℕ) (d : Disk)
    → Implements v d
    → BlockOffset o
    → Harmless g o (v.num_total_blocks + 4)
    → v.num_total_blocks + 4 < 2 ^ 64
    → Implements (write g v buf o (suc (v.last_committed + length d.waiting))) (disk_write d buf o)
write-Implements g v buf o d i ho harmless small =
    let n : length i.uws ≡ length d.waiting = Shown-length v.file i.uws d.waiting i.waiting in
    subst (λ k. Implements (write g v buf o (suc (v.last_committed + k))) (disk_write d buf o)) n
      (NewVersion-Implements v (write g v buf o (suc (v.last_committed + length i.uws))) o buf
        (result g v buf o (suc (v.last_committed + length i.uws))).0 d i ho
        (write-NewVersion g v buf o i.uws i.consistent harmless small ho.0))

Implements-first_block :
    (v : Volume) (o c : ℕ) (uw : UncommittedWrite)
    → c < 2 ^ 64
    → (installed v c o uw).first_level_blocks 0 < 2 ^ 64
    → Persisted (persist (installed v c o uw) uw).file c ((installed v c o uw).first_level_blocks 0)
unfolding persist first_block write_block
Implements-first_block v o c uw h k = (
  get_word-set_word_ne _ 1 0 _ (λ e. absurd (omega (arith, e))) ∙ get_word-set_word _ 0 c h,
  get_word-set_word _ 1 _ k,
)

root-small : (v : Volume) (r : ℕ) → Rooted v r → v.num_total_blocks < 2 ^ 64 → r < 2 ^ 64
root-small v r t n = elim (Bool-cases (r == 0)) [
  | inl z ↦ ground (arith, z)
  | inr nz ↦
      let used : Used v r = t.in_use at_root (λ z. absurd (ground (arith, nz, z))) in
      omega (arith, used.1, n)
]

-- The blocks that the next write has given up are handed to the free ones, after those that were free.
abbrev pub Frees : Volume → Volume → Type 0
Frees v v' =
    (uw : UncommittedWrite) × (v.uncommitted_writes (suc v.last_committed) ≡ some uw)
    × (v'.free_blocks ≡ v.free_blocks ++ uw.to_free)

committed-Implements :
    (v : Volume) (o : ℕ) (d0 e : Image) (ds : List Image) (uws : List UncommittedWrite)
    → Consistent v uws
    → Shown v.file uws (e ∷ ds)
    → suc v.last_committed < 2 ^ 64
    → v.num_total_blocks < 2 ^ 64
    → (v' : Volume) × (commit v (suc v.last_committed) o ≡ some v')
      × (v'.last_committed ≡ suc v.last_committed)
      × (v'.pending_blocks (o - o % block_size) ≡ none)
      × Implements v' (record { committed = e; waiting = ds })
      × Frees v v'
unfolding persist assign
committed-Implements v o d0 e ds [] con shown c n = absurd shown
committed-Implements v o d0 e ds (uw ∷ uws) con shown c n =
    let v' = after v o uw uws con in
    let kept = after-kept v o uw uws con in
    let root = after-root v o uw uws con in
    let t = first-Rooted v uw.new_metadata_offset_0 uws con.linked.2 in
    let fits : uw.new_metadata_offset_0 < 2 ^ 64 = root-small v uw.new_metadata_offset_0 t n in
    (
      v',
      commit-after v o uw uws con,
      refl,
      ground arith,
      record {
        uws = uws;
        consistent = after-Consistent v o uw uws con;
        committed =
            subst (λ r. Shows v'.file r e) (sym root)
              (Shows-moved v v' kept uw.new_metadata_offset_0 e t shown.0);
        waiting = Shown-moved v v' kept uw.new_metadata_offset_0 uws ds con.linked.2 shown.1;
        persisted =
            Implements-first_block v o (suc v.last_committed) uw c
              (subst (λ k. k < 2 ^ 64) (sym root) fits);
      },
      (uw, con.stored.0, ground arith),
    )

-- A commit of the next sequence number, which is one of a write that waits, succeeds at any offset where
-- the numbers fit in 64 bits. It makes the contents of the first waiting write the committed ones, in
-- block 0 of the file too; the later writes keep their contents, nothing is pending at the offset, and
-- the blocks that the write gave up follow those that were free.
pub commit-Implements :
    (v : Volume) (o : ℕ) (d0 e : Image) (ds : List Image)
    → Implements v (record { committed = d0; waiting = e ∷ ds })
    → suc v.last_committed < 2 ^ 64
    → v.num_total_blocks < 2 ^ 64
    → (v' : Volume) × (commit v (suc v.last_committed) o ≡ some v')
      × (v'.last_committed ≡ suc v.last_committed)
      × (v'.pending_blocks (o - o % block_size) ≡ none)
      × Implements v' (disk_commit (record { committed = d0; waiting = e ∷ ds }))
      × Frees v v'
commit-Implements v o d0 e ds i c n =
    committed-Implements v o d0 e ds i.uws i.consistent i.waiting c n
