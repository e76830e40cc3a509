-- ===== src/AtomicStorage/Write/Rerouted.antt =====
-- A write of one whole block, as a new way in the tree that it builds on.
use chained_block_storage.Base.{
  ℕ, zero, suc, ◌+◌, ◌-◌, ◌%◌, ◌^◌, ◌≤◌, ◌<◌, ◌≡◌, ◌≢◌, refl, ap, sym, subst, ◌∙◌, ◌⊎◌, inl, inr,
  true, false, ◌==◌, arith, if◌then◌else◌, Bool-cases, Option-cases,
}
use chained_block_storage.AtomicStorage.Block.{
  Block, block_size, get_word, set_word, file_block_num, set_entry,
}
use chained_block_storage.AtomicStorage.Index.{
  get_first_level, get_second_level, get_third_level, get_last_level,
}
use chained_block_storage.AtomicStorage.State.{File, UncommittedWrite, Volume, write_block, child}
use chained_block_storage.AtomicStorage.Write.{
  BlockPath, no_path, loaded, read_path, NewNums, write_numbered, write_paths, metadata_by,
  write_metadata, put_data, recorded, write_aligned, base_0, previous,
}
use chained_block_storage.AtomicStorage.Write.Aligned.{
  get_free_block_num-SameData, after_1, after_2, after_3, one_nums, loaded-set_word,
  loaded-set_entry, write_paths-one, write_numbered-file,
}
use chained_block_storage.AtomicStorage.Alloc.{Used, Sane, Allocated, get_free_block_num-Allocated}
use chained_block_storage.AtomicStorage.Tree.{
  Place, number, Agrees, number-Agrees, Way, rerouted, Grown, number-Grown,
}
use chained_block_storage.AtomicStorage.Tree.Unique.{way_at, DistinctWay, rerouted_on, rerouted_off}

-- The uninitialised numbers that a write at the offset may hit lie past the numbers up to a bound.
abbrev pub Harmless : (ℕ → ℕ) → ℕ → ℕ → Type 0
Harmless garbage offset bound =
    ((get_second_level offset ≡ 0) ⊎ (bound < garbage 1))
    × ((get_third_level offset ≡ 0) ⊎ (bound < garbage 2))

write_metadata-one :
    (g : ℕ → ℕ) (v : Volume) (s d e o : ℕ)
    → o % block_size ≡ 0
    → write_metadata g v s d e o
      ≡ write_paths false g v s d e (read_path v.file (base_0 v s o) o) no_path
unfolding write_metadata metadata_by
write_metadata-one g v s d e o h =
    let one : (o % block_size == 0) ≡ true = ground arith in
    let start : o - o % block_size ≡ o = omega arith in
    ap (λ b. metadata_by b g v s d e (o - o % block_size)) one
    ∙ ap (metadata_by true g v s d e) start

module _ (g : ℕ → ℕ) (v : Volume) (buf : Block) (o s : ℕ) where
  abbrev pub data_num : ℕ
  data_num = (put_data v o buf).0

  -- The volume with the block of data, and those after it.
  abbrev pub with_data : Volume
  with_data = (put_data v o buf).1

  abbrev pub old_path : BlockPath
  old_path = read_path with_data.file (base_0 with_data s o) o

  abbrev pub numbers : NewNums
  numbers = one_nums g old_path no_path with_data

  abbrev pub result : UncommittedWrite × Volume
  result = write_numbered false s data_num 0 old_path no_path (numbers, after_3 with_data)

  pub write_aligned-result :
      o % block_size ≡ 0 → write_aligned g v buf o s ≡ recorded result.1 s result.0
  unfolding write_aligned
  write_aligned-result h =
      ap (λ (x : UncommittedWrite × Volume). recorded x.1 s x.0)
        (write_metadata-one g with_data s data_num 0 o h
          ∙ write_paths-one g with_data s data_num old_path no_path)

  abbrev pub new_way : Way
  new_way = record {
    way_0 = numbers.new_0;
    way_1 = numbers.new_1;
    way_2 = numbers.new_2;
    way_3 = data_num;
    second_level = get_second_level o;
    third_level = get_third_level o;
    last_level = get_last_level o;
  }

  -- The four allocations.
  pub with_data-Allocated : Sane v → Allocated v data_num with_data
  unfolding put_data
  with_data-Allocated h =
      let a = get_free_block_num-Allocated v h in
      record {
        fresh = a.fresh;
        used = a.used;
        keeps = a.keeps;
        sane = record { distinct = a.sane.distinct; bounded = a.sane.bounded };
        grows = a.grows;
        not_less = a.not_less;
        remaining = a.remaining;
      }

  pub with_data-file : (m : ℕ) → with_data.file m ≡ (if m == data_num then buf else v.file m)
  unfolding put_data write_block
  with_data-file m =
      ap (λ (f : File). if m == data_num then buf else f m) (get_free_block_num-SameData v).file

rerouted-same :
    (w : Way) (f g : File) (r : ℕ)
    → ((p : Place) → number g r p ≡ number f r p)
    → (p : Place) → rerouted w g r p ≡ rerouted w f r p
rerouted-same w f g r h p = elim (Option-cases (way_at w p)) [
  | inl off ↦ rerouted_off w g r p off ∙ h p ∙ sym (rerouted_off w f r p off)
  | inr (n, on) ↦ rerouted_on w g r p n on ∙ sym (rerouted_on w f r p n on)
]

base_0-same :
    (v w : Volume) (o s : ℕ)
    → w.uncommitted_writes ≡ v.uncommitted_writes
    → w.first_level_blocks ≡ v.first_level_blocks
    → base_0 w s o ≡ base_0 v s o
unfolding base_0 previous
base_0-same v w o zero u r = ap (λ f. f (get_first_level o)) r
base_0-same v w o (suc s) u r = rw (u, r) refl

base_0-put_data :
    (v : Volume) (buf : Block) (o s : ℕ) → base_0 (put_data v o buf).1 s o ≡ base_0 v s o
unfolding put_data
base_0-put_data v buf o s =
    let same = get_free_block_num-SameData v in
    base_0-same v (put_data v o buf).1 o s same.uncommitted same.roots

-- What a write relies on: the free list is in order, the tree that it builds on is of used blocks, and
-- the numbers fit.
pub record Ready (g : ℕ → ℕ) (v : Volume) (o s : ℕ) : Type 0 where
  pub sane : Sane v
  pub in_use :
      (p : Place) → number v.file (base_0 v s o) p ≢ 0 → Used v (number v.file (base_0 v s o) p)
  pub harmless : Harmless g o (v.num_total_blocks + 4)
  pub small : v.num_total_blocks + 4 < 2 ^ 64

module _ (g : ℕ → ℕ) (v : Volume) (buf : Block) (o s : ℕ) (ready : Ready g v o s) where
  abbrev va : Volume
  va = with_data g v buf o s

  abbrev root : ℕ
  root = base_0 va s o

  abbrev num : NewNums
  num = numbers g v buf o s

  abbrev way : Way
  way = new_way g v buf o s

  abbrev final : File
  final = (result g v buf o s).1.file

  pub a0 : Allocated v (data_num g v buf o s) va
  a0 = with_data-Allocated g v buf o s ready.sane

  pub a1 : Allocated va num.new_0 (after_1 va)
  a1 = get_free_block_num-Allocated va a0.sane

  pub a2 : Allocated (after_1 va) num.new_1 (after_2 va)
  a2 = get_free_block_num-Allocated (after_1 va) a1.sane

  pub a3 : Allocated (after_2 va) num.new_2 (after_3 va)
  a3 = get_free_block_num-Allocated (after_2 va) a2.sane

  apart : {n : ℕ} (w : Volume) (m : ℕ) → ¬ Used w n → Used w m → m ≢ n
  apart w m fresh used e = fresh (subst (Used w) e used)

  bound : (m : ℕ) → Used (after_3 va) m → m ≤ v.num_total_blocks + 4
  bound m u = omega (arith, u.1, a0.grows, a1.grows, a2.grows, a3.grows)

  pub keeps_1 : (m : ℕ) → Used va m → Used (after_3 va) m
  keeps_1 m u = a3.keeps m (a2.keeps m (a1.keeps m u))

  new_0-Used : Used (after_3 va) num.new_0
  new_0-Used = a3.keeps _ (a2.keeps _ a1.used)

  new_1-Used : Used (after_3 va) num.new_1
  new_1-Used = a3.keeps _ a2.used

  pub new_way-DistinctWay : DistinctWay way
  new_way-DistinctWay = record {
    ne_01 = apart (after_1 va) num.new_0 a2.fresh a1.used;
    ne_02 = apart (after_2 va) num.new_0 a3.fresh (a2.keeps _ a1.used);
    ne_03 = λ e. apart va way.way_3 a1.fresh a0.used (sym e);
    ne_12 = apart (after_2 va) num.new_1 a3.fresh a2.used;
    ne_13 = λ e. apart (after_1 va) way.way_3 a2.fresh (a1.keeps _ a0.used) (sym e);
    ne_23 = λ e. apart (after_2 va) way.way_3 a3.fresh (a2.keeps _ (a1.keeps _ a0.used)) (sym e);
  }

  missed :
      (i n m : ℕ) (x : ℕ)
      → (x ≡ 0) ⊎ (v.num_total_blocks + 4 < i)
      → m ≤ v.num_total_blocks + 4
      → (x ≡ 0) ⊎ (m ≢ (if x == 0 then n else i))
  missed i n m x (inl z) b = inl z
  missed i n m x (inr far) b = elim (Bool-cases (x == 0)) [
    | inl z ↦ inl (ground arith)
    | inr p ↦ inr (λ e. absurd (ground arith))
  ]

  same_file : (after_3 va).file ≡ va.file
  same_file =
      (get_free_block_num-SameData (after_2 va)).file
      ∙ (get_free_block_num-SameData (after_1 va)).file
      ∙ (get_free_block_num-SameData va).file

  final_at :
      (m : ℕ)
      → m ≤ v.num_total_blocks + 4
      → final m ≡ (
          if m == num.new_2
          then set_entry
              (loaded va.file (old_path g v buf o s).old_2)
              (get_last_level o)
              way.way_3
              s
          else if m == num.new_1
          then set_word (loaded va.file (old_path g v buf o s).old_1) (get_third_level o) num.new_2
          else if m == num.new_0
          then set_word (loaded va.file root) (get_second_level o) num.new_1
          else va.file m)
  unfolding read_path no_path
  final_at m b =
      write_numbered-file (after_3 va) num s way.way_3 root o m va.file
        (missed (g 1) num.new_1 m (get_second_level o) ready.harmless.0 b)
        (missed (g 2) num.new_2 m (get_third_level o) ready.harmless.1 b)
      ∙ ap
          (λ (x : File).
            if m == num.new_2
            then set_entry (loaded va.file (old_path g v buf o s).old_2) (get_last_level o)
                way.way_3 s
            else if m == num.new_1
            then set_word (loaded va.file (old_path g v buf o s).old_1) (get_third_level o)
                num.new_2
            else if m == num.new_0
            then set_word (loaded va.file root) (get_second_level o) num.new_1
            else x m)
          same_file

  final_eq :
      (m : ℕ)
      → Used (after_3 va) m
      → final m ≡ (
          if m == num.new_2
          then set_entry
              (loaded va.file (old_path g v buf o s).old_2)
              (get_last_level o)
              way.way_3
              s
          else if m == num.new_1
          then set_word (loaded va.file (old_path g v buf o s).old_1) (get_third_level o) num.new_2
          else if m == num.new_0
          then set_word (loaded va.file root) (get_second_level o) num.new_1
          else va.file m)
  final_eq m u = final_at m (bound m u)

  small_numbers : (m : ℕ) → Used (after_3 va) m → m < 2 ^ 64
  small_numbers m u = omega (arith, bound m u, ready.small)

  -- A block that is in use stays as it is.
  pub final-kept : (m : ℕ) → Used v m → final m ≡ va.file m
  final-kept m u =
      let used_a = a0.keeps m u in
      let used_b = a1.keeps m used_a in
      let used_c = a2.keeps m used_b in
      let ne_0 = apart va m a1.fresh used_a in
      let ne_1 = apart (after_1 va) m a2.fresh used_b in
      let ne_2 = apart (after_2 va) m a3.fresh used_c in
      ground (arith, final_eq m (keeps_1 m used_a), ne_0, ne_1, ne_2)

  pub va-kept : (m : ℕ) → Used v m → va.file m ≡ v.file m
  va-kept m u = let ne = apart v m a0.fresh u in ground (arith, with_data-file g v buf o s m, ne)

  pub final-data : final way.way_3 ≡ buf
  final-data =
      let d = new_way-DistinctWay in
      ground (
        arith,
        final_eq way.way_3 (keeps_1 _ a0.used),
        with_data-file g v buf o s way.way_3,
        d.ne_03,
        d.ne_13,
        d.ne_23,
      )

  pub root_same : root ≡ base_0 v s o
  root_same = base_0-put_data v buf o s

  old-Used : (p : Place) → number v.file root p ≢ 0 → Used v (number v.file root p)
  old-Used =
      subst (λ r. (p : Place) → number v.file r p ≢ 0 → Used v (number v.file r p)) (sym root_same)
        ready.in_use

  in_va : Agrees v.file va.file root
  in_va p h = va-kept _ (old-Used p h)

  pub va-number : (p : Place) → number va.file root p ≡ number v.file root p
  va-number = number-Agrees v.file va.file root in_va

  agrees : Agrees va.file final root
  agrees p h =
      subst (λ m. final m ≡ va.file m) (sym (va-number p))
        (final-kept _ (old-Used p (λ z. h (va-number p ∙ z))))

  at_0 : final num.new_0 ≡ set_word (loaded va.file root) (get_second_level o) num.new_1
  at_0 =
      let d = new_way-DistinctWay in ground (arith, final_eq num.new_0 new_0-Used, d.ne_01, d.ne_02)

  at_1 :
      final num.new_1
      ≡ set_word (loaded va.file (old_path g v buf o s).old_1) (get_third_level o) num.new_2
  at_1 = let d = new_way-DistinctWay in ground (arith, final_eq num.new_1 new_1-Used, d.ne_12)

  at_2 :
      final num.new_2
      ≡ set_entry (loaded va.file (old_path g v buf o s).old_2) (get_last_level o) way.way_3 s
  at_2 = ground (arith, final_eq num.new_2 a3.used)

  pub final-Grown : Grown way va.file root final
  unfolding read_path
  final-Grown = record {
    words_0 = λ j.
        ap (λ b. get_word b j) at_0
        ∙ loaded-set_word va.file root (get_second_level o) j num.new_1
            (small_numbers _ new_1-Used);
    words_1 = λ k.
        ap (λ b. get_word b k) at_1
        ∙ loaded-set_word va.file (child va.file root (get_second_level o)) (get_third_level o) k
            num.new_2 (small_numbers _ a3.used);
    entries = λ l.
        ap (λ b. file_block_num b l) at_2
        ∙ loaded-set_entry va.file
            (child va.file (child va.file root (get_second_level o)) (get_third_level o))
            (get_last_level o) l way.way_3 s (small_numbers _ (keeps_1 _ a0.used));
    nonzero_0 = λ z. absurd (omega (arith, new_0-Used.0, z));
    nonzero_1 = λ z. absurd (omega (arith, new_1-Used.0, z));
    nonzero_2 = λ z. absurd (omega (arith, a3.used.0, z));
    agrees = agrees;
  }

  -- The new tree is the old one with the new way.
  pub final-number : (p : Place) → number final way.way_0 p ≡ rerouted way v.file (base_0 v s o) p
  final-number p =
      number-Grown way va.file root final final-Grown p
      ∙ rerouted-same way v.file va.file root va-number p
      ∙ ap (λ r. rerouted way v.file r p) root_same

  -- Block 0 is not written.
  pub final-first : final 0 ≡ v.file 0
  final-first = ground (
    arith,
    final_at 0 (omega arith),
    with_data-file g v buf o s 0,
    a0.used.0,
    a1.used.0,
    a2.used.0,
    a3.used.0,
  )
