-- ===== src/AtomicStorage/Write/NewVersion.antt =====
-- What a write of one whole block adds to the volume.
use chained_block_storage.Base.{
  true, ℕ, ◌+◌, ◌%◌, ◌≤◌, ◌≡◌, refl, ap, sym, subst, ◌∙◌, some, ◌==◌, arith, if◌then◌else◌,
}
use chained_block_storage.AtomicStorage.Block.{Block, block_size}
use chained_block_storage.AtomicStorage.Index.{
  get_first_level, get_first_level-zero, get_second_level, get_third_level, get_last_level,
}
use chained_block_storage.AtomicStorage.State.{UncommittedWrite, Volume, assign}
use chained_block_storage.AtomicStorage.Write.{
  no_path, read_path, write_numbered, put_data, recorded, write_aligned, write, base_0,
}
use chained_block_storage.AtomicStorage.Write.Aligned.{
  SameData, get_free_block_num-SameData, after_1, after_2, after_3,
}
use chained_block_storage.AtomicStorage.Write.Rerouted.{
  with_data, result, new_way, write_aligned-result, Ready, a0, a1, a2, a3, final-kept, final-first,
  va-kept, final-data, final-number, new_way-DistinctWay, root_same, va-number,
}
use chained_block_storage.AtomicStorage.Alloc.{Used, Sane, Allocated}
use chained_block_storage.AtomicStorage.Tree.{
  Place, at_root, at_second, at_third, at_last, number, Way, rerouted,
}
use chained_block_storage.AtomicStorage.Tree.Unique.{way_at, DistinctWay}
use chained_block_storage.AtomicStorage.Tree.Freed.{
  way_places, numbers_at, numbers_at-same, to_free-one,
}

-- From `v` to `v'` the number `s` gets the write `uw`: a tree for the tree of `r`, with new blocks on the
-- way to the offset `o` and `buf` at its end. Nothing that is in use changes.
pub record NewVersion (v : Volume) (s r o : ℕ) (buf : Block) (uw : UncommittedWrite) (v' : Volume)
    : Type 0 where
  pub uncommitted : v'.uncommitted_writes ≡ assign v.uncommitted_writes s (some uw)
  pub roots : v'.first_level_blocks ≡ v.first_level_blocks
  pub last : v'.last_committed ≡ v.last_committed
  pub kept : (m : ℕ) → Used v m → v'.file m ≡ v.file m
  pub first_block : v'.file 0 ≡ v.file 0
  pub used : (m : ℕ) → Used v m → Used v' m
  pub sane : Sane v'
  pub grows : v'.num_total_blocks ≤ v.num_total_blocks + 4
  pub way : Way
  pub second_level : way.second_level ≡ get_second_level o
  pub third_level : way.third_level ≡ get_third_level o
  pub last_level : way.last_level ≡ get_last_level o
  pub distinct : DistinctWay way
  pub fresh : (p : Place) (n : ℕ) → way_at way p ≡ some n → ¬ Used v n
  pub way_used : (p : Place) (n : ℕ) → way_at way p ≡ some n → Used v' n
  pub tree : (p : Place) → number v'.file uw.new_metadata_offset_0 p ≡ rerouted way v.file r p
  pub new_data : v'.file way.way_3 ≡ buf
  pub gives_up : uw.to_free ≡ numbers_at v.file r (way_places o)
  pub one_root : uw.new_metadata_offset_1 ≡ uw.new_metadata_offset_0

-- A property of each of the four numbers holds at all places of the way.
way_at-All :
    (P : ℕ → Type 0) (w : Way)
    → P w.way_0
    → P w.way_1
    → P w.way_2
    → P w.way_3
    → (p : Place) (n : ℕ) → way_at w p ≡ some n
    → P n
unfolding way_at
way_at-All P w h0 h1 h2 h3 at_root n e = subst P (ground (arith, e)) h0
way_at-All P w h0 h1 h2 h3 (at_second j) n e = subst P (ground (arith, e)) h1
way_at-All P w h0 h1 h2 h3 (at_third j k) n e = subst P (ground (arith, e)) h2
way_at-All P w h0 h1 h2 h3 (at_last j k l) n e = subst P (ground (arith, e)) h3

one_first : (o n k : ℕ) → (if get_first_level o == 0 then n else k) ≡ n
one_first o n k =
    let first : get_first_level o ≡ 0 = get_first_level-zero o in ground (arith, first)

module _ (g : ℕ → ℕ) (v : Volume) (buf : Block) (o s : ℕ) (ready : Ready g v o s) where
  abbrev va : Volume
  va = with_data g v buf o s

  abbrev written : Volume
  written = recorded (result g v buf o s).1 s (result g v buf o s).0

  w0 : Allocated v (new_way g v buf o s).way_3 va
  w0 = a0 g v buf o s ready

  w1 : Allocated va (new_way g v buf o s).way_0 (after_1 va)
  w1 = a1 g v buf o s ready

  w2 : Allocated (after_1 va) (new_way g v buf o s).way_1 (after_2 va)
  w2 = a2 g v buf o s ready

  w3 : Allocated (after_2 va) (new_way g v buf o s).way_2 (after_3 va)
  w3 = a3 g v buf o s ready

  numbers-fresh : (p : Place) (n : ℕ) → way_at (new_way g v buf o s) p ≡ some n → ¬ Used v n
  numbers-fresh =
      way_at-All (λ n. ¬ Used v n) (new_way g v buf o s) (λ u. w1.fresh (w0.keeps _ u))
        (λ u. w2.fresh (w1.keeps _ (w0.keeps _ u)))
        (λ u. w3.fresh (w2.keeps _ (w1.keeps _ (w0.keeps _ u)))) w0.fresh

  numbers-Used : (p : Place) (n : ℕ) → way_at (new_way g v buf o s) p ≡ some n → Used (after_3 va) n
  numbers-Used =
      way_at-All (Used (after_3 va)) (new_way g v buf o s) (w3.keeps _ (w2.keeps _ w1.used))
        (w3.keeps _ w2.used) w3.used (w3.keeps _ (w2.keeps _ (w1.keeps _ w0.used)))

  same_volume : SameData va (after_3 va)
  same_volume =
      let x1 = get_free_block_num-SameData va in
      let x2 = get_free_block_num-SameData (after_1 va) in
      let x3 = get_free_block_num-SameData (after_2 va) in
      record {
        file = x3.file ∙ x2.file ∙ x1.file;
        uncommitted = x3.uncommitted ∙ x2.uncommitted ∙ x1.uncommitted;
        pending = x3.pending ∙ x2.pending ∙ x1.pending;
        roots = x3.roots ∙ x2.roots ∙ x1.roots;
        last = x3.last ∙ x2.last ∙ x1.last;
      }

  written-NewVersion : NewVersion v s (base_0 v s o) o buf (result g v buf o s).0 written
  unfolding recorded write_numbered put_data read_path no_path
  written-NewVersion =
      let first = get_free_block_num-SameData v in
      record {
        uncommitted =
            ap (λ m. assign m s (some (result g v buf o s).0))
              (same_volume.uncommitted ∙ first.uncommitted);
        roots = same_volume.roots ∙ first.roots;
        last = same_volume.last ∙ first.last;
        kept = λ m u. final-kept g v buf o s ready m u ∙ va-kept g v buf o s ready m u;
        first_block = final-first g v buf o s ready;
        used = λ m u. w3.keeps m (w2.keeps m (w1.keeps m (w0.keeps m u)));
        sane = record { distinct = w3.sane.distinct; bounded = w3.sane.bounded };
        grows = omega (arith, w0.grows, w1.grows, w2.grows, w3.grows);
        way = new_way g v buf o s;
        second_level = refl;
        third_level = refl;
        last_level = refl;
        distinct = new_way-DistinctWay g v buf o s ready;
        fresh = numbers-fresh;
        way_used = numbers-Used;
        tree = final-number g v buf o s ready;
        new_data = final-data g v buf o s ready;
        gives_up =
            to_free-one va.file (base_0 va s o) o
            ∙ numbers_at-same v.file va.file (base_0 v s o) (base_0 va s o)
                (λ p.
                  va-number g v buf o s ready p
                  ∙ ap (λ r. number v.file r p) (root_same g v buf o s ready))
                (way_places o);
        one_root = one_first o _ (g 0);
      }

  pub write_aligned-NewVersion :
      o % block_size ≡ 0
      → NewVersion v s (base_0 v s o) o buf (result g v buf o s).0 (write_aligned g v buf o s)
  write_aligned-NewVersion h =
      subst (NewVersion v s (base_0 v s o) o buf (result g v buf o s).0)
        (sym (write_aligned-result g v buf o s h)) written-NewVersion

pub write-aligned :
    (g : ℕ → ℕ) (v : Volume) (buf : Block) (o s : ℕ)
    → o % block_size ≡ 0
    → write g v buf o s ≡ write_aligned g v buf o s
unfolding write
write-aligned g v buf o s h =
    let one : (o % block_size == 0) ≡ true = ground (arith, h) in rw one refl
