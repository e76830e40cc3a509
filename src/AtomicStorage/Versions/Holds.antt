-- ===== src/AtomicStorage/Versions/Holds.antt =====
-- The numbers of the writes and commits of a volume that implements a disk (src/storage.cpp).
use chained_block_storage.Base.{
  ℕ, suc, ◌+◌, ◌^◌, ◌<◌, ◌≤◌, ◌≡◌, refl, ap, sym, subst, ◌∙◌, Option, none, some, List, [], ◌∷◌,
  ◌++◌, length, arith,
}
use chained_block_storage.AtomicStorage.Block.{Block}
use chained_block_storage.AtomicStorage.State.{UncommittedWrite, Volume}
use chained_block_storage.AtomicStorage.Commit.{commit, install, persist}
use chained_block_storage.AtomicStorage.Write.{write}
use chained_block_storage.AtomicStorage.Write.Rerouted.{Harmless}
use chained_block_storage.AtomicStorage.Write.Contents.{BlockOffset}
use chained_block_storage.AtomicStorage.Versions.Disk.{
  Image, Disk, disk_write, disk_commit, Implements, Shown-length,
}
use chained_block_storage.AtomicStorage.Versions.Refinement.{
  write-Implements, commit-Implements, write-NewVersion,
}

-- The volume implements the disk, with `c` the last committed number and `w` that of the last write.
pub record Holds (v : Volume) (d : Disk) (c w : ℕ) : Type 0 where
  pub implements : Implements v d
  pub last : v.last_committed ≡ c
  pub waiting : w ≡ c + length d.waiting

length-last : (xs : List Image) (x : Image) → length (xs ++ x ∷ []) ≡ suc (length xs)
length-last [] x = refl
length-last (y ∷ xs) x = ap suc (length-last xs x)

-- A write with the next number.
pub write-Holds :
    (g : ℕ → ℕ) (v : Volume) (buf : Block) (o : ℕ) (d : Disk) (c w s : ℕ)
    → Holds v d c w
    → s ≡ w + 1
    → BlockOffset o
    → Harmless g o (v.num_total_blocks + 4)
    → v.num_total_blocks + 4 < 2 ^ 64
    → Holds (write g v buf o s) (disk_write d buf o) c (w + 1)
      × ((write g v buf o s).num_total_blocks ≤ v.num_total_blocks + 4)
write-Holds g v buf o d c w s h e ho harmless small =
    let i = h.implements in
    let n : length i.uws ≡ length d.waiting = Shown-length v.file i.uws d.waiting i.waiting in
    let number : suc (v.last_committed + length d.waiting) ≡ s =
      omega (arith, h.last, h.waiting, e) in
    let number_uws : suc (v.last_committed + length i.uws) ≡ s = omega (arith, n, number) in
    let nv = write-NewVersion g v buf o i.uws i.consistent harmless small ho.0 in
    let bounds : ((write g v buf o s).last_committed ≡ v.last_committed)
        × ((write g v buf o s).num_total_blocks ≤ v.num_total_blocks + 4) =
      subst
        (λ k.
          ((write g v buf o k).last_committed ≡ v.last_committed)
          × ((write g v buf o k).num_total_blocks ≤ v.num_total_blocks + 4))
        number_uws (nv.last, nv.grows) in
    (
      record {
        implements =
            subst (λ k. Implements (write g v buf o k) (disk_write d buf o)) number
              (write-Implements g v buf o d i ho harmless small);
        last = bounds.0 ∙ h.last;
        waiting = omega (arith, length-last d.waiting _, h.waiting);
      },
      bounds.1,
    )

install-num_total_blocks :
    (v : Volume) (s o : ℕ) (uw : UncommittedWrite)
    → (install v s o uw).num_total_blocks ≡ v.num_total_blocks
unfolding install
install-num_total_blocks v s o uw = ground arith

abbrev SameTotal : Volume → Option Volume → Type 0
SameTotal v none = Unit
SameTotal v (some v') = v'.num_total_blocks ≡ v.num_total_blocks

commit_found-SameTotal :
    (v : Volume) (s o : ℕ) (x : Option UncommittedWrite)
    → SameTotal v (elim x as (λ _. Option Volume) [
      | none ↦ none
      | some uw ↦ some (persist (install v s o uw) uw)
    ])
unfolding persist
commit_found-SameTotal v s o none = tt
commit_found-SameTotal v s o (some uw) = install-num_total_blocks v s o uw

commit-SameTotal : (v : Volume) (s o : ℕ) → SameTotal v (commit v s o)
unfolding commit
commit-SameTotal v s o = commit_found-SameTotal v s o (v.uncommitted_writes s)

commit_waiting-Holds :
    (v : Volume) (o : ℕ) (d0 : Image) (ds : List Image) (c w : ℕ)
    → Holds v (record { committed = d0; waiting = ds }) c w
    → c < w
    → c + 1 < 2 ^ 64
    → v.num_total_blocks < 2 ^ 64
    → (v' : Volume) × (commit v (c + 1) o ≡ some v')
      × Holds v' (disk_commit (record { committed = d0; waiting = ds })) (c + 1) w
      × (v'.num_total_blocks ≡ v.num_total_blocks)
commit_waiting-Holds v o d0 [] c w h below small blocks = absurd (omega (arith, h.waiting, below))
commit_waiting-Holds v o d0 (e ∷ ds) c w h below small blocks =
    let next : suc v.last_committed ≡ c + 1 = omega (arith, h.last) in
    let (v', done, last, _, i, _) =
      commit-Implements v o d0 e ds h.implements (subst (λ k. k < 2 ^ 64) (sym next) small)
        blocks in
    (
      v',
      sym (ap (λ k. commit v k o) next) ∙ done,
      record { implements = i; last = last ∙ next; waiting = omega (arith, h.waiting) },
      subst (SameTotal v) done (commit-SameTotal v (suc v.last_committed) o),
    )

-- A commit of the next number, if its write waits.
pub commit-Holds :
    (v : Volume) (o : ℕ) (d : Disk) (c w : ℕ)
    → Holds v d c w
    → c < w
    → c + 1 < 2 ^ 64
    → v.num_total_blocks < 2 ^ 64
    → (v' : Volume) × (commit v (c + 1) o ≡ some v')
      × Holds v' (disk_commit d) (c + 1) w
      × (v'.num_total_blocks ≡ v.num_total_blocks)
commit-Holds v o d c w h below small blocks =
    commit_waiting-Holds v o d.committed d.waiting c w h below small blocks
