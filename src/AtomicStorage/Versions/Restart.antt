-- ===== src/AtomicStorage/Versions/Restart.antt =====
-- The start of the storage on the file that a crash left: the committed contents, and every block that
-- they do not need is free (src/storage.cpp, `open_volume`).
use chained_block_storage.Base.{
  dec_lt, Bool-cases, ◌⊎◌, inl, inr, ℕ, ◌+◌, ◌-◌, ◌/◌, ◌≤◌, ◌<◌, ◌≡◌, ◌≢◌, refl, ap, sym, subst,
  false, List, [], ◌∷◌, All, All-map, All-each, arith, ◌==◌,
}
use chained_block_storage.AtomicStorage.Block.{block_size, get_word}
use chained_block_storage.AtomicStorage.State.{File, Volume}
use chained_block_storage.AtomicStorage.Alloc.{Absent, Distinct, Used, Sane}
use chained_block_storage.AtomicStorage.Open.{
  sort, unused, used_blocks, with_first_block, start_volume, find_unused, open_volume, close_volume,
}
use chained_block_storage.AtomicStorage.Open.Unused.{Within}
use chained_block_storage.AtomicStorage.Open.Sorted.{unused-sort}
use chained_block_storage.AtomicStorage.Open.Places.{of_numbers_at}
use chained_block_storage.AtomicStorage.Open.Collected.{used_blocks-places}
use chained_block_storage.AtomicStorage.Open.AllPlaces.{
  all_places, all_places-Distinct, of_all_places,
}
use chained_block_storage.AtomicStorage.Tree.{Place, number}
use chained_block_storage.AtomicStorage.Tree.Unique.{Unique}
use chained_block_storage.AtomicStorage.Tree.Freed.{numbers_at, All-numbers_at, numbers_at-Distinct}
use chained_block_storage.AtomicStorage.Versions.Disk.{Image, Shows, Implements}
use chained_block_storage.AtomicStorage.Versions.Sized.{Sized, number-InRange}

-- A file with a tree under the root in block 0, in blocks of the file.
pub record StoredTree (f : File) (total : ℕ) (d : Image) : Type 0 where
  pub sized : Sized f
  pub within :
      (p : Place) → number f (get_word (f 0) 1) p ≢ 0 → number f (get_word (f 0) 1) p < total
  pub unique : Unique f (get_word (f 0) 1)
  pub shows : Shows f (get_word (f 0) 1) d

-- The number is not one of the list, or that of a place.
listed-or_place :
    (f : File) (r k : ℕ) (ps : List Place)
    → Absent k (numbers_at f r ps) ⊎ ((p : Place) × (number f r p ≡ k))
listed-or_place f r k [] = inl tt
listed-or_place f r k (p ∷ ps) = elim (Bool-cases (number f r p == k)) [
  | inl same ↦ inr (p, ground (arith, same))
  | inr other ↦ elim (listed-or_place f r k ps) [
    | inr found ↦ inr found
    | inl rest ↦ elim (Bool-cases (number f r p == 0)) [
      | inl none_there ↦ inl (rw none_there rest)
      | inr there ↦ inl (rw there ((λ e. absurd (ground (arith, other, e))), rest))
    ]
  ]
]

-- Each number is 0, past the blocks of the file, that of a block in the tree, or free.
abbrev pub AllAccounted : Volume → Type 0
AllAccounted v =
    (k : ℕ)
    → (k ≡ 0)
      ⊎ (v.num_total_blocks ≤ k)
      ⊎ ((p : Place) × (number v.file (v.first_level_blocks 0) p ≡ k))
      ⊎ (¬ Absent k v.free_blocks)

module _ (v : Volume) (f : File) (total : ℕ) (d : Image) (t : StoredTree f total d) where
  -- The volume before the free blocks are found.
  abbrev read_volume : Volume
  read_volume = with_first_block (record (close_volume v) { file = f; num_total_blocks = total })

  abbrev used : List ℕ
  used = used_blocks read_volume

  abbrev free : List ℕ
  free = unused (total - 1) 1 (sort used)

  abbrev pub opened : Volume
  opened = record read_volume { free_blocks = free }

  used_places : used ≡ numbers_at f (get_word (f 0) 1) all_places
  unfolding with_first_block
  used_places = used_blocks-places read_volume

  used-Distinct : Distinct used
  used-Distinct =
      subst Distinct (sym used_places)
        (numbers_at-Distinct f (get_word (f 0) 1) all_places t.unique all_places-Distinct)

  used_positive : All (λ k. 1 ≤ k) used
  used_positive = subst (All (λ k. 1 ≤ k)) (sym used_places) (
      All-numbers_at (λ k. 1 ≤ k) (λ _. Unit) f (get_word (f 0) 1) all_places
        (All-each (λ _. Unit) (λ _. tt) all_places) (λ p e h. ground (arith, h)))

  free_exact :
      All (Within (total - 1) 1 used) free
      × ((k : ℕ) → Within (total - 1) 1 used k → ¬ Absent k free)
      × Distinct free
  free_exact = unused-sort (total - 1) 1 used used-Distinct used_positive

  opened-Sane : Sane opened
  unfolding with_first_block close_volume
  opened-Sane = record {
    distinct = free_exact.2;
    bounded =
        All-map (Within (total - 1) 1 used) (λ n. (1 ≤ n) × (n ≤ total))
          (λ k w. (w.0, omega (arith, w.0, w.1))) free free_exact.0;
  }

  opened_in_use :
      (p : Place) → number f (get_word (f 0) 1) p ≢ 0 → Used opened (number f (get_word (f 0) 1) p)
  unfolding with_first_block close_volume
  opened_in_use p h =
      let r = get_word (f 0) 1 in
      let n = number f r p in
      let in_range = number-InRange f r p t.sized h in
      let not_free : Absent n free =
        All-map (Within (total - 1) 1 used) (λ k. k ≢ n)
          (λ k w e.
            of_all_places (λ q. number f r q ≢ n)
              (of_numbers_at f r n all_places h
                (subst (Absent n) used_places (subst (λ x. Absent x used) e w.2)))
              p in_range refl)
          free free_exact.0 in
      (ground (arith, h), omega (arith, t.within p h), not_free)

  pub opened-AllAccounted : AllAccounted opened
  unfolding with_first_block close_volume
  opened-AllAccounted k =
      let r = get_word (f 0) 1 in
      elim (Bool-cases (k == 0)) [
        | inl first ↦ inl (ground (arith, first))
        | inr later ↦ elim (dec_lt k total) [
          | no past ↦ inr (inl (omega (arith, past)))
          | yes within ↦ elim (listed-or_place f r k all_places) [
            | inr found ↦ inr (inr (inl found))
            | inl unlisted ↦
                let positive : 1 ≤ k = ground (arith, later) in
                let below : k < 1 + (total - 1) = omega (arith, positive, within) in
                inr (
                  inr (
                    inr (
                      free_exact.1 k
                        (positive, below, subst (Absent k) (sym used_places) unlisted))))
          ]
        ]
      ]

  pub opened-Implements : Implements opened (record { committed = d; waiting = [] })
  unfolding with_first_block close_volume
  opened-Implements = record {
    uws = [];
    consistent = record {
      sane = opened-Sane;
      none_committed = refl;
      stored = tt;
      linked = record { in_use = opened_in_use; unique = t.unique };
    };
    committed = t.shows;
    waiting = tt;
    persisted = (refl, refl);
  }

open_volume-opened :
    (v : Volume) (f : File) (size : ℕ) (d : Image) (t : StoredTree f ((size + 1) / block_size) d)
    → 1 ≤ (size + 1) / block_size
    → open_volume (close_volume v) f size ≡ opened v f ((size + 1) / block_size) d t
unfolding open_volume start_volume find_unused with_first_block close_volume
open_volume-opened v f size d t h =
    let total = (size + 1) / block_size in
    let some_blocks : (total == 0) ≡ false = ground (arith, h) in
    ap (λ b. find_unused (start_volume b (close_volume v) f total)) some_blocks

-- The start of the storage on a file that has a tree with some contents under the root of block 0: the
-- volume implements the disk with those contents and nothing waiting, and accounts for all blocks.
pub open_volume-Implements :
    (v : Volume) (f : File) (size : ℕ) (d : Image)
    → StoredTree f ((size + 1) / block_size) d
    → 1 ≤ (size + 1) / block_size
    → let w = open_volume (close_volume v) f size in
      Implements w (record { committed = d; waiting = [] }) × AllAccounted w
open_volume-Implements v f size d t h =
    subst (λ w. Implements w (record { committed = d; waiting = [] }) × AllAccounted w)
      (sym (open_volume-opened v f size d t h))
      (
        opened-Implements v f ((size + 1) / block_size) d t,
        opened-AllAccounted v f ((size + 1) / block_size) d t,
      )
