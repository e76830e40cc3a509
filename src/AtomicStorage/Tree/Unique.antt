-- ===== src/AtomicStorage/Tree/Unique.antt =====
-- Every block stands at one place of the tree, and a new way keeps it so.
use chained_block_storage.Base.{
  ℕ, ◌≡◌, ◌≢◌, refl, ap, sym, ◌∙◌, inl, inr, Option, none, some, ◌==◌, arith, if◌then◌else◌,
  Option-cases,
}
use chained_block_storage.AtomicStorage.State.{File}
use chained_block_storage.AtomicStorage.Tree.{
  Place, at_root, at_second, at_third, at_last, number, Way, rerouted,
}

abbrev pub Unique : File → ℕ → Type 0
Unique f r = (p q : Place) → number f r p ≢ 0 → number f r p ≡ number f r q → p ≡ q

-- The new number at a place of the way.
unfoldable pub way_at : Way → Place → Option ℕ
way_at w at_root = some w.way_0
way_at w (at_second j) = if j == w.second_level then some w.way_1 else none
way_at w (at_third j k) =
    if j == w.second_level then (if k == w.third_level then some w.way_2 else none) else none
way_at w (at_last j k l) =
    if j == w.second_level
    then (if k == w.third_level then (if l == w.last_level then some w.way_3 else none) else none)
    else none

pub rerouted_on :
    (w : Way) (f : File) (r : ℕ) (p : Place) (n : ℕ) → way_at w p ≡ some n → rerouted w f r p ≡ n
unfolding way_at
rerouted_on w f r at_root n h = ground arith
rerouted_on w f r (at_second j) n h = ground arith
rerouted_on w f r (at_third j k) n h = ground arith
rerouted_on w f r (at_last j k l) n h = ground arith

pub rerouted_off :
    (w : Way) (f : File) (r : ℕ) (p : Place) → way_at w p ≡ none → rerouted w f r p ≡ number f r p
unfolding way_at
rerouted_off w f r at_root h = absurd (cc)
rerouted_off w f r (at_second j) h = ground arith
rerouted_off w f r (at_third j k) h = ground arith
rerouted_off w f r (at_last j k l) h = ground arith

-- The four new numbers differ.
pub record DistinctWay (w : Way) : Type 0 where
  pub ne_01 : w.way_0 ≢ w.way_1
  pub ne_02 : w.way_0 ≢ w.way_2
  pub ne_03 : w.way_0 ≢ w.way_3
  pub ne_12 : w.way_1 ≢ w.way_2
  pub ne_13 : w.way_1 ≢ w.way_3
  pub ne_23 : w.way_2 ≢ w.way_3

module _ (w : Way) (d : DistinctWay w) where
  way_at_unique : (p q : Place) (n : ℕ) → way_at w p ≡ some n → way_at w q ≡ some n → p ≡ q
  unfolding way_at
  way_at_unique at_root at_root n h k = refl
  way_at_unique at_root (at_second j) n h k = absurd (ground (arith, d.ne_01))
  way_at_unique at_root (at_third j x) n h k = absurd (ground (arith, d.ne_02))
  way_at_unique at_root (at_last j x l) n h k = absurd (ground (arith, d.ne_03))
  way_at_unique (at_second i) at_root n h k = absurd (ground (arith, d.ne_01))
  way_at_unique (at_second i) (at_second j) n h k = ground arith
  way_at_unique (at_second i) (at_third j x) n h k = absurd (ground (arith, d.ne_12))
  way_at_unique (at_second i) (at_last j x l) n h k = absurd (ground (arith, d.ne_13))
  way_at_unique (at_third i y) at_root n h k = absurd (ground (arith, d.ne_02))
  way_at_unique (at_third i y) (at_second j) n h k = absurd (ground (arith, d.ne_12))
  way_at_unique (at_third i y) (at_third j x) n h k = ground arith
  way_at_unique (at_third i y) (at_last j x l) n h k = absurd (ground (arith, d.ne_23))
  way_at_unique (at_last i y z) at_root n h k = absurd (ground (arith, d.ne_03))
  way_at_unique (at_last i y z) (at_second j) n h k = absurd (ground (arith, d.ne_13))
  way_at_unique (at_last i y z) (at_third j x) n h k = absurd (ground (arith, d.ne_23))
  way_at_unique (at_last i y z) (at_last j x l) n h k = ground arith

-- The new numbers are none of the tree's.
abbrev pub FreshWay : Way → File → ℕ → Type 0
FreshWay w f r = (p q : Place) (n : ℕ) → way_at w p ≡ some n → number f r q ≢ n

module _ (w : Way) (d : DistinctWay w) (f : File) (r : ℕ) (fresh : FreshWay w f r)
    (u : Unique f r) where
  pub rerouted-Unique :
      (p q : Place) → rerouted w f r p ≢ 0 → rerouted w f r p ≡ rerouted w f r q → p ≡ q
  rerouted-Unique p q h e = elim (Option-cases (way_at w p)) [
    | inl p_off ↦ elim (Option-cases (way_at w q)) [
      | inl q_off ↦
          u p q (λ z. h (rerouted_off w f r p p_off ∙ z))
            (sym (rerouted_off w f r p p_off) ∙ e ∙ rerouted_off w f r q q_off)
      | inr (n, q_on) ↦
          absurd
            (fresh q p n q_on (sym (rerouted_off w f r p p_off) ∙ e ∙ rerouted_on w f r q n q_on))
    ]
    | inr (m, p_on) ↦ elim (Option-cases (way_at w q)) [
      | inl q_off ↦
          absurd (
            fresh p q m p_on
              (sym (rerouted_off w f r q q_off) ∙ sym e ∙ rerouted_on w f r p m p_on))
      | inr (n, q_on) ↦
          way_at_unique w d p q m p_on
            (q_on ∙ ap some (sym (rerouted_on w f r q n q_on) ∙ sym e ∙ rerouted_on w f r p m p_on))
    ]
  ]

  -- The old numbers on the way are no longer in the tree.
  pub rerouted-gone :
      (p q : Place) (n : ℕ)
      → way_at w q ≡ some n
      → number f r q ≢ 0
      → rerouted w f r p ≢ number f r q
  rerouted-gone p q n on h e = elim (Option-cases (way_at w p)) [
    | inl p_off ↦
        let same : q ≡ p = u q p h (sym e ∙ rerouted_off w f r p p_off) in
        absurd (ground (arith, ap (way_at w) same))
    | inr (m, p_on) ↦ absurd (fresh p q m p_on (sym e ∙ rerouted_on w f r p m p_on))
  ]
