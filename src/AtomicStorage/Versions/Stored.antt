-- ===== src/AtomicStorage/Versions/Stored.antt =====
-- The writes that wait under their sequence numbers, and the root that the next one builds on.
use chained_block_storage.Base.{
  ℕ, suc, ◌+◌, ◌≤◌, ◌<◌, ◌≡◌, refl, ap, ◌∙◌, Option, none, some, List, [], ◌∷◌, ◌++◌, length, arith,
}
use chained_block_storage.AtomicStorage.Index.{get_first_level, get_first_level-zero}
use chained_block_storage.AtomicStorage.State.{UncommittedWrite, Volume, assign}
use chained_block_storage.AtomicStorage.Write.{base_0, previous}
use chained_block_storage.AtomicStorage.Versions.{Stored, Consistent, last_root}

pub Stored-assign :
    (m : ℕ → Option UncommittedWrite) (t : ℕ) (x : Option UncommittedWrite) (s : ℕ)
    (uws : List UncommittedWrite)
    → s + length uws ≤ t
    → Stored m s uws
    → Stored (assign m t x) s uws
unfolding assign
Stored-assign m t x s [] h st = tt
Stored-assign m t x s (uw ∷ uws) h st =
    (ground (arith, st.0, h), Stored-assign m t x (suc s) uws (omega (arith, h)) st.1)

-- So is a list of writes whose numbers are all after the one that is erased.
pub Stored-erase :
    (m : ℕ → Option UncommittedWrite) (t : ℕ) (x : Option UncommittedWrite) (s : ℕ)
    (uws : List UncommittedWrite)
    → t < s
    → Stored m s uws
    → Stored (assign m t x) s uws
unfolding assign
Stored-erase m t x s [] h st = tt
Stored-erase m t x s (uw ∷ uws) h st =
    (ground (arith, st.0, h), Stored-erase m t x (suc s) uws (omega (arith, h)) st.1)

pub Stored-append :
    (m : ℕ → Option UncommittedWrite) (s : ℕ) (uws : List UncommittedWrite) (uw : UncommittedWrite)
    → Stored m s uws
    → m (s + length uws) ≡ some uw
    → Stored m s (uws ++ uw ∷ [])
Stored-append m s [] uw st e = (ap m (omega arith) ∙ e, tt)
Stored-append m s (x ∷ uws) uw st e =
    (st.0, Stored-append m (suc s) uws uw st.1 (ap m (omega arith) ∙ e))

-- The root of the version with a sequence number, where the committed one has no entry.
abbrev root_by : ℕ → Option UncommittedWrite → ℕ
root_by r none = r
root_by r (some uw) = uw.new_metadata_offset_0

root_by-last :
    (m : ℕ → Option UncommittedWrite) (r0 s r : ℕ) (uws : List UncommittedWrite)
    → root_by r0 (m s) ≡ r
    → Stored m (suc s) uws
    → root_by r0 (m (s + length uws)) ≡ last_root r uws
root_by-last m r0 s r [] h st = ap (λ k. root_by r0 (m k)) (omega arith) ∙ h
root_by-last m r0 s r (uw ∷ uws) h st =
    ap (λ k. root_by r0 (m k)) (omega arith)
    ∙ root_by-last m r0 (suc s) uw.new_metadata_offset_0 uws (ap (root_by r0) st.0) st.1

root_by-elim :
    (r : ℕ) (x : Option UncommittedWrite)
    → elim x [ none ↦ r | some uw ↦ uw.new_metadata_offset_0 ] ≡ root_by r x
root_by-elim r none = refl
root_by-elim r (some uw) = refl

base_0-root_by :
    (v : Volume) (k o : ℕ)
    → base_0 v (suc k) o
      ≡ root_by (v.first_level_blocks (get_first_level o)) (v.uncommitted_writes k)
unfolding base_0 previous
base_0-root_by v k o =
    root_by-elim (v.first_level_blocks (get_first_level o)) (v.uncommitted_writes k)

-- The next write builds on the last version.
pub base_0-last_root :
    (v : Volume) (uws : List UncommittedWrite) (o : ℕ)
    → Consistent v uws
    → base_0 v (suc (v.last_committed + length uws)) o ≡ last_root (v.first_level_blocks 0) uws
base_0-last_root v uws o con =
    let first = v.first_level_blocks (get_first_level o) in
    let one : first ≡ v.first_level_blocks 0 = ap v.first_level_blocks (get_first_level-zero o) in
    base_0-root_by v (v.last_committed + length uws) o
    ∙ root_by-last v.uncommitted_writes first v.last_committed (v.first_level_blocks 0) uws
        (ap (root_by first) con.none_committed ∙ one) con.stored
