-- ===== src/AtomicStorage/Versions/Commit.antt =====
-- A commit makes the next version the committed one, and frees the blocks that its write gave up.
use chained_block_storage.Base.{
  ℕ, suc, ◌-◌, ◌%◌, ◌≤◌, ◌≡◌, ◌≢◌, refl, ap, sym, subst, ◌∙◌, inl, inr, none, some, true, false,
  List, [], ◌∷◌, ◌++◌, All, All-map, All-append, arith, ◌==◌, Bool-cases,
}
use chained_block_storage.AtomicStorage.Block.{block_size}
use chained_block_storage.AtomicStorage.Index.{get_first_level, get_first_level-zero}
use chained_block_storage.AtomicStorage.State.{UncommittedWrite, Volume, assign, write_block}
use chained_block_storage.AtomicStorage.Commit.{set_root, install, persist, commit}
use chained_block_storage.AtomicStorage.Alloc.{Absent, Distinct, Used, Sane}
use chained_block_storage.AtomicStorage.Versions.{OfTree, Linked, Consistent}
use chained_block_storage.AtomicStorage.Versions.Moved.{Linked-moved}
use chained_block_storage.AtomicStorage.Versions.Stored.{Stored-erase}

-- What a commit of a write with one root leaves.
abbrev pub installed : Volume → ℕ → ℕ → UncommittedWrite → Volume
installed v s o uw = record v {
  first_level_blocks =
      set_root v.first_level_blocks (get_first_level (o - o % block_size)) uw.new_metadata_offset_0;
  pending_blocks = assign v.pending_blocks (o - o % block_size) none;
  last_committed = s;
  uncommitted_writes = assign v.uncommitted_writes s none;
}

install-one :
    (v : Volume) (s o : ℕ) (uw : UncommittedWrite)
    → uw.new_metadata_offset_1 ≡ uw.new_metadata_offset_0
    → install v s o uw ≡ installed v s o uw
unfolding install
install-one v s o uw h =
    let same : (uw.new_metadata_offset_0 == uw.new_metadata_offset_1) ≡ true = ground (arith, h) in
    elim (Bool-cases (uw.new_metadata_offset_1 == 0)) [
      | inl z ↦ rw z refl
      | inr nz ↦ rw (nz, same) refl
    ]

pub commit-one :
    (v : Volume) (s o : ℕ) (uw : UncommittedWrite)
    → v.uncommitted_writes s ≡ some uw
    → uw.new_metadata_offset_1 ≡ uw.new_metadata_offset_0
    → commit v s o ≡ some (persist (installed v s o uw) uw)
unfolding commit
commit-one v s o uw h one =
    ap (λ x. elim x [ none ↦ none | some w ↦ some (persist (install v s o w) w) ]) h
    ∙ ap (λ x. some (persist x uw)) (install-one v s o uw one)

Distinct-append :
    (ns ms : List ℕ) → Distinct ns → Distinct ms → All (λ m. Absent m ns) ms → Distinct (ns ++ ms)
Distinct-append [] ms dn dm a = dm
Distinct-append (n ∷ ns) ms dn dm a = (
  All-append (λ k. k ≢ n) ns ms dn.0
      (All-map (λ m. Absent m (n ∷ ns)) (λ k. k ≢ n) (λ m h e. h.0 (sym e)) ms a),
  Distinct-append ns ms dn.1 dm
      (All-map (λ m. Absent m (n ∷ ns)) (λ m. Absent m ns) (λ m h. h.1) ms a),
)

module _ (v : Volume) (o : ℕ) (uw : UncommittedWrite) (uws : List UncommittedWrite)
    (con : Consistent v (uw ∷ uws)) where
  -- The volume after the commit.
  abbrev pub after : Volume
  after = persist (installed v (suc v.last_committed) o uw) uw

  pub after-kept : (m : ℕ) → Used v m → after.file m ≡ v.file m
  unfolding persist write_block
  after-kept m u = let not_first : (m == 0) ≡ false = ground (arith, u.0) in rw not_first refl

  freed-Used : All (Used v) uw.to_free
  freed-Used =
      All-map (OfTree v.file (v.first_level_blocks 0)) (Used v)
        (λ n (p, e, nz). subst (Used v) e (con.linked.0.in_use p (λ z. nz (sym e ∙ z)))) uw.to_free
        con.linked.1.of_old

  after-Used : (m : ℕ) → Used v m → Absent m uw.to_free → Used after m
  unfolding persist
  after-Used m u a = (u.0, u.1, All-append (λ k. k ≢ m) v.free_blocks uw.to_free u.2 a)

  after-Sane : Sane after
  unfolding persist
  after-Sane = record {
    distinct =
        Distinct-append v.free_blocks uw.to_free con.sane.distinct con.linked.1.distinct
          (All-map (Used v) (λ m. Absent m v.free_blocks) (λ m u. u.2) uw.to_free freed-Used);
    bounded =
        All-append (λ n. (1 ≤ n) × (n ≤ v.num_total_blocks)) v.free_blocks uw.to_free
          con.sane.bounded
          (All-map (Used v) (λ n. (1 ≤ n) × (n ≤ v.num_total_blocks)) (λ n u. (u.0, u.1)) uw.to_free
            freed-Used);
  }

  pub after-root : after.first_level_blocks 0 ≡ uw.new_metadata_offset_0
  unfolding persist set_root
  after-root =
      let first : get_first_level (o - o % block_size) ≡ 0 =
        get_first_level-zero (o - o % block_size) in
      ground (arith, first)

  after-Linked : Linked after uw.new_metadata_offset_0 uws
  after-Linked =
      Linked-moved v after after-kept uw.to_free after-Used uw.new_metadata_offset_0 uws
        con.linked.1.gone con.linked.1.gone_later con.linked.2

  pub after-Consistent : Consistent after uws
  unfolding persist assign
  after-Consistent = record {
    sane = after-Sane;
    none_committed = ground arith;
    stored =
        Stored-erase v.uncommitted_writes (suc v.last_committed) none (suc (suc v.last_committed))
          uws (omega arith) con.stored.1;
    linked = subst (λ r. Linked after r uws) (sym after-root) after-Linked;
  }

  pub commit-after : commit v (suc v.last_committed) o ≡ some after
  commit-after = commit-one v (suc v.last_committed) o uw con.stored.0 con.linked.1.one_root
