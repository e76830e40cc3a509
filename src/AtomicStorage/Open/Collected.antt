-- ===== src/AtomicStorage/Open/Collected.antt =====
-- The used blocks are the numbers at all places of the tree (src/storage.cpp, `open_volume`).
use chained_block_storage.Base.{
  ℕ, ◌≡◌, ◌≢◌, refl, ap, sym, subst, ◌∙◌, if◌then◌else◌, inl, inr, List, [], ◌∷◌, ◌++◌, All, arith,
  ◌==◌, Bool-cases,
}
use chained_block_storage.AtomicStorage.Block.{get_word, file_block_num}
use chained_block_storage.AtomicStorage.Index.{num_indirect, num_entries, num_first_level}
use chained_block_storage.AtomicStorage.State.{File, Volume, child, leaf}
use chained_block_storage.AtomicStorage.Commit.{collect, collect_below, walk}
use chained_block_storage.AtomicStorage.Open.{used_blocks}
use chained_block_storage.AtomicStorage.Open.Places.{
  collect-All, numbers_at-collect, numbers_at-none,
}
use chained_block_storage.AtomicStorage.Tree.{Place, at_root, at_second, at_third, at_last, number}
use chained_block_storage.AtomicStorage.Tree.Freed.{numbers_at}
use chained_block_storage.AtomicStorage.Open.AllPlaces.{third_places, second_places, all_places}

-- What the loops append below a block.
abbrev entries_of : File → ℕ → List ℕ
entries_of f n =
    collect num_entries 0 (λ l. let x = file_block_num (f n) l in if x == 0 then [] else x ∷ [])

abbrev thirds_of : File → ℕ → List ℕ
thirds_of f n =
    collect num_indirect 0
      (λ k. let x = get_word (f n) k in if x == 0 then [] else (x ∷ []) ++ entries_of f x)

abbrev seconds_of : File → ℕ → List ℕ
seconds_of f n =
    collect num_indirect 0
      (λ j. let x = get_word (f n) j in if x == 0 then [] else (x ∷ []) ++ thirds_of f x)

child_there : (f : File) (n k : ℕ) → n ≢ 0 → child f n k ≡ get_word (f n) k
unfolding child
child_there f n k h = ground (arith, h)

leaf_there : (f : File) (n l : ℕ) → n ≢ 0 → leaf f n l ≡ file_block_num (f n) l
unfolding leaf
leaf_there f n l h = ground (arith, h)

child_none : (f : File) (n k : ℕ) → n ≡ 0 → child f n k ≡ 0
unfolding child
child_none f n k h = ground (arith, h)

leaf_none : (f : File) (n l : ℕ) → n ≡ 0 → leaf f n l ≡ 0
unfolding leaf
leaf_none f n l h = ground (arith, h)

module _ (f : File) (r : ℕ) where
  numbers_at_last :
      (j k : ℕ)
      → number f r (at_third j k) ≢ 0
      → numbers_at f r (collect num_entries 0 (λ l. at_last j k l ∷ []))
        ≡ entries_of f (number f r (at_third j k))
  numbers_at_last j k h =
      numbers_at-collect f r num_entries 0 (λ l. at_last j k l ∷ [])
        (λ l.
          let x = file_block_num (f (number f r (at_third j k))) l in if x == 0 then [] else x ∷ [])
        (λ l.
          ap (λ x. if x == 0 then [] else x ∷ []) (leaf_there f (number f r (at_third j k)) l h))

  none_below_third :
      (j k : ℕ) → number f r (at_third j k) ≡ 0 → All (λ p. number f r p ≡ 0) (third_places j k)
  none_below_third j k h = (
    h,
    collect-All (λ p. number f r p ≡ 0) num_entries 0 (λ l. at_last j k l ∷ [])
        (λ l. (leaf_none f (number f r (at_third j k)) l h, tt)),
  )

  none_below_second :
      (j : ℕ) → number f r (at_second j) ≡ 0 → All (λ p. number f r p ≡ 0) (second_places j)
  none_below_second j h = (
    h,
    collect-All (λ p. number f r p ≡ 0) num_indirect 0 (third_places j)
        (λ k. none_below_third j k (child_none f (number f r (at_second j)) k h)),
  )

  -- A block and those below it, or nothing.
  numbers_at_block :
      (p : Place) (ps : List Place) (below : ℕ → List ℕ) (n : ℕ)
      → number f r p ≡ n
      → (n ≡ 0 → All (λ q. number f r q ≡ 0) ps)
      → (n ≢ 0 → numbers_at f r ps ≡ below n)
      → numbers_at f r (p ∷ ps) ≡ (if n == 0 then [] else (n ∷ []) ++ below n)
  numbers_at_block p ps below n e none some =
      subst
        (λ m.
          (if m == 0 then numbers_at f r ps else m ∷ numbers_at f r ps)
          ≡ (if n == 0 then [] else (n ∷ []) ++ below n))
        (sym e)
        (elim (Bool-cases (n == 0)) [
          | inl gone ↦ rw gone (numbers_at-none f r ps (none (ground (arith, gone))))
          | inr there ↦ rw there (ap (λ ns. n ∷ ns) (some (λ z. absurd (ground (arith, there, z)))))
        ])

  numbers_at_third :
      (j k n : ℕ)
      → number f r (at_third j k) ≡ n
      → numbers_at f r (third_places j k) ≡ (if n == 0 then [] else (n ∷ []) ++ entries_of f n)
  numbers_at_third j k n e =
      numbers_at_block (at_third j k) (collect num_entries 0 (λ l. at_last j k l ∷ []))
        (entries_of f) n e (λ z. (none_below_third j k (e ∙ z)).1)
        (λ h. numbers_at_last j k (λ z. h (sym e ∙ z)) ∙ ap (entries_of f) e)

  numbers_at_second :
      (j n : ℕ)
      → number f r (at_second j) ≡ n
      → numbers_at f r (second_places j) ≡ (if n == 0 then [] else (n ∷ []) ++ thirds_of f n)
  numbers_at_second j n e =
      numbers_at_block (at_second j) (collect num_indirect 0 (third_places j)) (thirds_of f) n e
        (λ z. (none_below_second j (e ∙ z)).1)
        (λ h.
          numbers_at-collect f r num_indirect 0 (third_places j)
            (λ k. let x = get_word (f n) k in if x == 0 then [] else (x ∷ []) ++ entries_of f x)
            (λ k.
              numbers_at_third j k (get_word (f n) k)
                (ap (λ m. child f m k) e ∙ child_there f n k h)))

  pub numbers_at_all :
      numbers_at f r all_places ≡ (if r == 0 then [] else (r ∷ []) ++ seconds_of f r)
  numbers_at_all =
      numbers_at_block at_root (collect num_indirect 0 second_places) (seconds_of f) r refl
        (λ z.
          collect-All (λ p. number f r p ≡ 0) num_indirect 0 second_places
            (λ j. none_below_second j (child_none f r j z)))
        (λ h.
          numbers_at-collect f r num_indirect 0 second_places
            (λ j. let x = get_word (f r) j in if x == 0 then [] else (x ∷ []) ++ thirds_of f x)
            (λ j. numbers_at_second j (get_word (f r) j) (child_there f r j h)))

collect-one : {A : Type 0} (i : ℕ) (g : ℕ → List A) → collect 1 i g ≡ g i ++ []
unfolding collect
collect-one i g = refl

append_none : {A : Type 0} (xs : List A) → xs ++ [] ≡ xs
append_none [] = refl
append_none (x ∷ xs) = ap (λ ys. x ∷ ys) (append_none xs)

used_blocks-loops :
    (v : Volume)
    → used_blocks v
      ≡ collect num_first_level 0 (λ i.
        let n = v.first_level_blocks i in if n == 0 then [] else (n ∷ []) ++ seconds_of v.file n)
unfolding used_blocks walk collect_below
used_blocks-loops v = refl

-- `open_volume` collects the number at each place.
pub used_blocks-places :
    (v : Volume) → used_blocks v ≡ numbers_at v.file (v.first_level_blocks 0) all_places
used_blocks-places v =
    let g : ℕ → List ℕ = λ i.
      let n = v.first_level_blocks i in if n == 0 then [] else (n ∷ []) ++ seconds_of v.file n in
    used_blocks-loops v
    ∙ collect-one 0 g
    ∙ append_none (g 0)
    ∙ sym (numbers_at_all v.file (v.first_level_blocks 0))
