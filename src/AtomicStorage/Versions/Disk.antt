-- ===== src/AtomicStorage/Versions/Disk.antt =====
-- The storage as a disk that has no blocks of numbers: the committed contents, and the contents after
-- each write that waits (src/storage.cpp).
use chained_block_storage.Base.{
  ℕ, suc, ◌≡◌, refl, ap, sym, subst, ◌∙◌, List, [], ◌∷◌, ◌++◌, length, ◌==◌, if◌then◌else◌,
}
use chained_block_storage.AtomicStorage.Block.{Block, get_word}
use chained_block_storage.AtomicStorage.State.{File, UncommittedWrite, Volume, lookup, block_at}
use chained_block_storage.AtomicStorage.Write.Contents.{content, BlockOffset, block_at-same}
use chained_block_storage.AtomicStorage.Alloc.{Used}
use chained_block_storage.AtomicStorage.Tree.{place_of, lookup-number}
use chained_block_storage.AtomicStorage.Versions.{Rooted, Linked, Consistent, last_root}
use chained_block_storage.AtomicStorage.Versions.Moved.{number-moved, first-Rooted}

-- The block at each offset.
abbrev pub Image : Type 0
Image = ℕ → Block

pub record Disk : Type 0 where
  pub committed : Image
  pub waiting : List Image

abbrev pub last_image : Image → List Image → Image
last_image d [] = d
last_image d (e ∷ ds) = last_image e ds

abbrev pub put : Image → ℕ → Block → Image
put d o buf p = if p == o then buf else d p

-- A write adds contents that differ from the last at one offset, and a commit takes the first.
abbrev pub disk_write : Disk → Block → ℕ → Disk
disk_write d buf o = record d {
  waiting = d.waiting ++ put (last_image d.committed d.waiting) o buf ∷ [];
}

abbrev pub disk_commit : Disk → Disk
disk_commit d = elim d.waiting [ [] ↦ d | e ∷ ds ↦ record { committed = e; waiting = ds } ]

-- A tree with the contents.
abbrev pub Shows : File → ℕ → Image → Type 0
Shows f r d = (o : ℕ) → BlockOffset o → content f r o ≡ d o

abbrev pub Shown : File → List UncommittedWrite → List Image → Type 0
Shown f [] [] = Unit
Shown f [] (d ∷ ds) = ⊥
Shown f (uw ∷ uws) [] = ⊥
Shown f (uw ∷ uws) (d ∷ ds) = Shows f uw.new_metadata_offset_0 d × Shown f uws ds

-- Block 0 has the last committed number and the root.
abbrev pub Persisted : File → ℕ → ℕ → Type 0
Persisted f c r = (get_word (f 0) 0 ≡ c) × (get_word (f 0) 1 ≡ r)

-- The volume is consistent, block 0 is up to date, and its versions have the contents of the disk.
pub record Implements (v : Volume) (d : Disk) : Type 0 where
  pub uws : List UncommittedWrite
  pub consistent : Consistent v uws
  pub committed : Shows v.file (v.first_level_blocks 0) d.committed
  pub waiting : Shown v.file uws d.waiting
  pub persisted : Persisted v.file v.last_committed (v.first_level_blocks 0)

pub Shown-length :
    (f : File) (uws : List UncommittedWrite) (ds : List Image)
    → Shown f uws ds
    → length uws ≡ length ds
Shown-length f [] [] h = refl
Shown-length f [] (d ∷ ds) h = absurd h
Shown-length f (uw ∷ uws) [] h = absurd h
Shown-length f (uw ∷ uws) (d ∷ ds) h = ap suc (Shown-length f uws ds h.1)

module _ (v v' : Volume) (kept : (m : ℕ) → Used v m → v'.file m ≡ v.file m) where
  pub content-moved : (r : ℕ) → Rooted v r → (o : ℕ) → content v'.file r o ≡ content v.file r o
  content-moved r t o =
      let same : lookup v'.file r o ≡ lookup v.file r o =
        lookup-number v'.file r o
        ∙ number-moved v v' kept r t (place_of o)
        ∙ sym (lookup-number v.file r o) in
      ap (block_at v'.file) same
      ∙ block_at-same v.file v'.file (lookup v.file r o) (λ nz. kept _ (
          subst (Used v) (sym (lookup-number v.file r o))
            (t.in_use (place_of o) (λ z. nz (lookup-number v.file r o ∙ z)))))

  pub Shows-moved : (r : ℕ) (d : Image) → Rooted v r → Shows v.file r d → Shows v'.file r d
  Shows-moved r d t h o ho = content-moved r t o ∙ h o ho

  pub Shown-moved :
      (r : ℕ) (uws : List UncommittedWrite) (ds : List Image)
      → Linked v r uws
      → Shown v.file uws ds
      → Shown v'.file uws ds
  Shown-moved r [] [] l h = tt
  Shown-moved r [] (d ∷ ds) l h = absurd h
  Shown-moved r (uw ∷ uws) [] l h = absurd h
  Shown-moved r (uw ∷ uws) (d ∷ ds) l h = (
    Shows-moved uw.new_metadata_offset_0 d (first-Rooted v uw.new_metadata_offset_0 uws l.2) h.0,
    Shown-moved uw.new_metadata_offset_0 uws ds l.2 h.1,
  )

pub Shown-append :
    (f : File) (uws : List UncommittedWrite) (ds : List Image) (uw : UncommittedWrite) (d : Image)
    → Shown f uws ds
    → Shows f uw.new_metadata_offset_0 d
    → Shown f (uws ++ uw ∷ []) (ds ++ d ∷ [])
Shown-append f [] [] uw d h s = (s, tt)
Shown-append f [] (e ∷ ds) uw d h s = absurd h
Shown-append f (w ∷ uws) [] uw d h s = absurd h
Shown-append f (w ∷ uws) (e ∷ ds) uw d h s = (h.0, Shown-append f uws ds uw d h.1 s)

pub Shown-last :
    (f : File) (r : ℕ) (uws : List UncommittedWrite) (d : Image) (ds : List Image)
    → Shows f r d
    → Shown f uws ds
    → Shows f (last_root r uws) (last_image d ds)
Shown-last f r [] d [] s h = s
Shown-last f r [] d (e ∷ ds) s h = absurd h
Shown-last f r (uw ∷ uws) d [] s h = absurd h
Shown-last f r (uw ∷ uws) d (e ∷ ds) s h = Shown-last f uw.new_metadata_offset_0 uws e ds h.0 h.1
