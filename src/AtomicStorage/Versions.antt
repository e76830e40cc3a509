-- ===== src/AtomicStorage/Versions.antt =====
-- The versions of a volume: the committed one and one for each write that waits (src/storage.cpp).
pub mod Moved
pub mod Stored
pub mod Write
pub mod Commit
pub mod Disk
pub mod Refinement
pub mod Crash
pub mod Reads
pub mod Sized
pub mod Restart
pub mod Recovered
pub mod Holds
use chained_block_storage.Base.{
  ℕ, zero, suc, ◌+◌, ◌≤◌, ◌<◌, ◌≡◌, ◌≢◌, Option, none, some, List, [], ◌∷◌, ◌++◌, All,
}
use chained_block_storage.AtomicStorage.State.{File, UncommittedWrite, Volume}
use chained_block_storage.AtomicStorage.Alloc.{Absent, Distinct, Used, Sane}
use chained_block_storage.AtomicStorage.Tree.{Place, number}
use chained_block_storage.AtomicStorage.Tree.Unique.{Unique}

-- The tree of a root is made of blocks in use, each at one place.
pub record Rooted (v : Volume) (r : ℕ) : Type 0 where
  pub in_use : (p : Place) → number v.file r p ≢ 0 → Used v (number v.file r p)
  pub unique : Unique v.file r

-- None of the numbers is in the tree.
abbrev pub Missing : File → List ℕ → ℕ → Type 0
Missing f ns r = (p : Place) → Absent (number f r p) ns

-- The number is one of the tree's.
abbrev pub OfTree : File → ℕ → ℕ → Type 0
OfTree f r n = (p : Place) × (number f r p ≡ n) × (n ≢ 0)

-- A write that waits gives up blocks of the tree of `r`, the version before, each once, and none of them
-- is in its own tree or a later one.
pub record Link (f : File) (r : ℕ) (uw : UncommittedWrite) (later : List UncommittedWrite)
    : Type 0 where
  pub of_old : All (OfTree f r) uw.to_free
  pub distinct : Distinct uw.to_free
  pub gone : Missing f uw.to_free uw.new_metadata_offset_0
  pub gone_later : All (λ w. Missing f uw.to_free w.new_metadata_offset_0) later
  pub one_root : uw.new_metadata_offset_1 ≡ uw.new_metadata_offset_0

abbrev pub Linked : Volume → ℕ → List UncommittedWrite → Type 0
Linked v r [] = Rooted v r
Linked v r (uw ∷ uws) = Rooted v r × Link v.file r uw uws × Linked v uw.new_metadata_offset_0 uws

-- The writes have the sequence numbers from `s` on.
abbrev pub Stored : (ℕ → Option UncommittedWrite) → ℕ → List UncommittedWrite → Type 0
Stored m s [] = Unit
Stored m s (uw ∷ uws) = (m s ≡ some uw) × Stored m (suc s) uws

-- What holds between the calls: the numbers after `last_committed` are those of the writes that wait,
-- in order.
pub record Consistent (v : Volume) (uws : List UncommittedWrite) : Type 0 where
  pub sane : Sane v
  pub none_committed : v.uncommitted_writes v.last_committed ≡ none
  pub stored : Stored v.uncommitted_writes (suc v.last_committed) uws
  pub linked : Linked v (v.first_level_blocks 0) uws

abbrev pub last_root : ℕ → List UncommittedWrite → ℕ
last_root r [] = r
last_root r (uw ∷ uws) = last_root uw.new_metadata_offset_0 uws
