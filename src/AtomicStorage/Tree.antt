-- ===== src/AtomicStorage/Tree.antt =====
-- The tree of block numbers below a root: the number at each of its places, and what a new root with
-- a new way to one block has there.
pub mod Unique
pub mod Freed
use chained_block_storage.Base.{
  ℕ, suc, ◌+◌, ◌≡◌, ◌≢◌, refl, ap, sym, ◌∙◌, ◌⊎◌, inl, inr, true, false, ◌==◌, arith, if◌then◌else◌,
  Bool-cases, ==_iff,
}
use chained_block_storage.AtomicStorage.Block.{Block, get_word, file_block_num}
use chained_block_storage.AtomicStorage.Index.{get_second_level, get_third_level, get_last_level}
use chained_block_storage.AtomicStorage.State.{File, child, leaf, lookup}

-- The root, a place in it, a place in the block there, and an entry of the block there.
pub data Place : Type 0 where
  at_root : Place
  at_second : ℕ → Place
  at_third : ℕ → ℕ → Place
  at_last : ℕ → ℕ → ℕ → Place

abbrev pub number : File → ℕ → Place → ℕ
number file r at_root = r
number file r (at_second j) = child file r j
number file r (at_third j k) = child file (child file r j) k
number file r (at_last j k l) = leaf file (child file (child file r j) k) l

abbrev pub place_of : ℕ → Place
place_of offset = at_last (get_second_level offset) (get_third_level offset) (get_last_level offset)

pub lookup-number :
    (file : File) (r offset : ℕ) → lookup file r offset ≡ number file r (place_of offset)
unfolding lookup
lookup-number file r offset = refl

child-same : (f g : File) (m k : ℕ) → (m ≢ 0 → g m ≡ f m) → child g m k ≡ child f m k
unfolding child
child-same f g m k h = ground (arith, h)

leaf-same : (f g : File) (m l : ℕ) → (m ≢ 0 → g m ≡ f m) → leaf g m l ≡ leaf f m l
unfolding leaf
leaf-same f g m l h = ground (arith, h)

-- Every block of the tree is the same in both files.
abbrev pub Agrees : File → File → ℕ → Type 0
Agrees f g r = (p : Place) → number f r p ≢ 0 → g (number f r p) ≡ f (number f r p)

module _ (f g : File) (r : ℕ) (a : Agrees f g r) where
  number-Agrees_third : (j k : ℕ) → number g r (at_third j k) ≡ number f r (at_third j k)
  number-Agrees_third j k =
      ap (λ m. child g m k) (child-same f g r j (a at_root))
      ∙ child-same f g (child f r j) k (a (at_second j))

  -- Then so is the tree.
  pub number-Agrees : (p : Place) → number g r p ≡ number f r p
  number-Agrees at_root = refl
  number-Agrees (at_second j) = child-same f g r j (a at_root)
  number-Agrees (at_third j k) = number-Agrees_third j k
  number-Agrees (at_last j k l) =
      ap (λ m. leaf g m l) (number-Agrees_third j k)
      ∙ leaf-same f g (child f (child f r j) k) l (a (at_third j k))

-- The numbers of the new blocks on the way to one place, and that place.
pub record Way : Type 0 where
  pub way_0 : ℕ
  pub way_1 : ℕ
  pub way_2 : ℕ
  pub way_3 : ℕ
  pub second_level : ℕ
  pub third_level : ℕ
  pub last_level : ℕ

-- A tree with the new numbers on the way, and the old elsewhere.
abbrev pub rerouted : Way → File → ℕ → Place → ℕ
rerouted w f r at_root = w.way_0
rerouted w f r (at_second j) = if j == w.second_level then w.way_1 else child f r j
rerouted w f r (at_third j k) =
    if j == w.second_level
    then (if k == w.third_level then w.way_2 else number f r (at_third j k))
    else number f r (at_third j k)
rerouted w f r (at_last j k l) =
    if j == w.second_level
    then (if k == w.third_level
        then (if l == w.last_level then w.way_3 else number f r (at_last j k l))
        else number f r (at_last j k l))
    else number f r (at_last j k l)

-- The new blocks in the file: copies of the old ones on the way, with the next number put in.
pub record Grown (w : Way) (f : File) (r : ℕ) (g : File) : Type 0 where
  pub words_0 :
      (j : ℕ) → get_word (g w.way_0) j ≡ (if j == w.second_level then w.way_1 else child f r j)
  pub words_1 :
      (k : ℕ)
      → get_word (g w.way_1) k
        ≡ (if k == w.third_level then w.way_2 else child f (child f r w.second_level) k)
  pub entries :
      (l : ℕ)
      → file_block_num (g w.way_2) l ≡ (
          if l == w.last_level
          then w.way_3
          else leaf f (child f (child f r w.second_level) w.third_level) l)
  pub nonzero_0 : w.way_0 ≢ 0
  pub nonzero_1 : w.way_1 ≢ 0
  pub nonzero_2 : w.way_2 ≢ 0
  pub agrees : Agrees f g r

child-nonzero : (g : File) (n j : ℕ) → n ≢ 0 → child g n j ≡ get_word (g n) j
unfolding child
child-nonzero g n j h = ground arith

leaf-nonzero : (g : File) (n l : ℕ) → n ≢ 0 → leaf g n l ≡ file_block_num (g n) l
unfolding leaf
leaf-nonzero g n l h = ground arith

module _ (w : Way) (f : File) (r : ℕ) (g : File) (h : Grown w f r g) where
  number-Grown_second : (j : ℕ) → child g w.way_0 j ≡ rerouted w f r (at_second j)
  number-Grown_second j = child-nonzero g w.way_0 j h.nonzero_0 ∙ h.words_0 j

  child-rerouted :
      (j k : ℕ) → child g (rerouted w f r (at_second j)) k ≡ rerouted w f r (at_third j k)
  child-rerouted j k = elim (Bool-cases (j == w.second_level)) [
    | inl on ↦
        rw (on, (==_iff j w.second_level).0 on)
          (child-nonzero g w.way_1 k h.nonzero_1 ∙ h.words_1 k)
    | inr off ↦ rw off (child-same f g (child f r j) k (h.agrees (at_second j)))
  ]

  number-Grown_third : (j k : ℕ) → number g w.way_0 (at_third j k) ≡ rerouted w f r (at_third j k)
  number-Grown_third j k = ap (λ m. child g m k) (number-Grown_second j) ∙ child-rerouted j k

  leaf-rerouted :
      (j k l : ℕ) → leaf g (rerouted w f r (at_third j k)) l ≡ rerouted w f r (at_last j k l)
  leaf-rerouted j k l = elim (Bool-cases (j == w.second_level)) [
    | inr off ↦ rw off (leaf-same f g (child f (child f r j) k) l (h.agrees (at_third j k)))
    | inl on ↦ elim (Bool-cases (k == w.third_level)) [
      | inr off ↦ rw (on, off) (leaf-same f g (child f (child f r j) k) l (h.agrees (at_third j k)))
      | inl too ↦
          rw (on, too, (==_iff j w.second_level).0 on, (==_iff k w.third_level).0 too)
            (leaf-nonzero g w.way_2 l h.nonzero_2 ∙ h.entries l)
    ]
  ]

  pub number-Grown : (p : Place) → number g w.way_0 p ≡ rerouted w f r p
  number-Grown at_root = refl
  number-Grown (at_second j) = number-Grown_second j
  number-Grown (at_third j k) = number-Grown_third j k
  number-Grown (at_last j k l) = ap (λ m. leaf g m l) (number-Grown_third j k) ∙ leaf-rerouted j k l
