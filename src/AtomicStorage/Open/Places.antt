-- ===== src/AtomicStorage/Open/Places.antt =====
-- The used blocks that the start of the storage collects, as the numbers at the places of the tree
-- (src/storage.cpp, the nested loops of `open_volume`).
use chained_block_storage.Base.{
  ℕ, zero, suc, ◌+◌, ◌≤◌, ◌<◌, ◌≡◌, ◌≢◌, refl, ap, subst, ◌∙◌, Bool, true, if◌then◌else◌, inl, inr,
  List, [], ◌∷◌, ◌++◌, All, All-map, All-append, arith, ◌==◌, Bool-cases,
}
use chained_block_storage.AtomicStorage.State.{File}
use chained_block_storage.AtomicStorage.Commit.{collect}
use chained_block_storage.AtomicStorage.Alloc.{Absent}
use chained_block_storage.AtomicStorage.Tree.{Place, number}
use chained_block_storage.AtomicStorage.Tree.Freed.{numbers_at, DistinctPlaces}

-- What holds for the list of each index holds for the collected list.
pub collect-All :
    {A : Type 0} (P : A → Type 0) (n i : ℕ) (g : ℕ → List A)
    → ((j : ℕ) → All P (g j))
    → All P (collect n i g)
unfolding collect
collect-All P zero i g h = tt
collect-All P (suc n) i g h =
    All-append P (g i) (collect n (i + 1) g) (h i) (collect-All P n (i + 1) g h)

of_append : {A : Type 0} (P : A → Type 0) (xs ys : List A) → All P (xs ++ ys) → All P xs × All P ys
of_append P [] ys a = (tt, a)
of_append P (x ∷ xs) ys a = let rest = of_append P xs ys a.1 in ((a.0, rest.0), rest.1)

pub of_collect :
    {A : Type 0} (P : A → Type 0) (n i : ℕ) (g : ℕ → List A) (j : ℕ)
    → All P (collect n i g)
    → i ≤ j
    → j < i + n
    → All P (g j)
unfolding collect
of_collect P zero i g j a l u = absurd (omega (arith, l, u))
of_collect P (suc n) i g j a l u =
    let parts = of_append P (g i) (collect n (i + 1) g) a in
    elim (Bool-cases (i == j)) [
      | inl here ↦ subst (λ k. All P (g k)) (ground (arith, here)) parts.0
      | inr later ↦ of_collect P n (i + 1) g j parts.1 (ground (arith, later, l)) (omega (arith, u))
    ]

DistinctPlaces-append :
    (ps qs : List Place)
    → DistinctPlaces ps
    → DistinctPlaces qs
    → All (λ p. All (λ q. p ≢ q) qs) ps
    → DistinctPlaces (ps ++ qs)
DistinctPlaces-append [] qs dp dq a = dq
DistinctPlaces-append (p ∷ ps) qs dp dq a =
    (All-append (λ q. p ≢ q) ps qs dp.0 a.0, DistinctPlaces-append ps qs dp.1 dq a.1)

-- Places that are told apart by the index that they come from.
module _ (key : Place → ℕ) (g : ℕ → List Place) (keyed : (j : ℕ) → All (λ p. key p ≡ j) (g j)) where
  collect-above : (n i : ℕ) → All (λ p. i ≤ key p) (collect n i g)
  unfolding collect
  collect-above zero i = tt
  collect-above (suc n) i =
      All-append (λ p. i ≤ key p) (g i) (collect n (i + 1) g)
        (All-map (λ p. key p ≡ i) (λ p. i ≤ key p) (λ p e. omega (arith, e)) (g i) (keyed i))
        (All-map (λ p. i + 1 ≤ key p) (λ p. i ≤ key p) (λ p h. omega (arith, h))
          (collect n (i + 1) g) (collect-above n (i + 1)))

  pub collect-DistinctPlaces :
      (n i : ℕ) → ((j : ℕ) → DistinctPlaces (g j)) → DistinctPlaces (collect n i g)
  unfolding collect
  collect-DistinctPlaces zero i d = tt
  collect-DistinctPlaces (suc n) i d =
      DistinctPlaces-append (g i) (collect n (i + 1) g) (d i) (collect-DistinctPlaces n (i + 1) d) (
        All-map (λ p. key p ≡ i) (λ p. All (λ q. p ≢ q) (collect n (i + 1) g))
          (λ p e.
            All-map (λ q. i + 1 ≤ key q) (λ q. p ≢ q)
              (λ q h same. absurd (omega (arith, e, h, ap key same))) (collect n (i + 1) g)
              (collect-above n (i + 1)))
          (g i) (keyed i))

numbers_at-append :
    (f : File) (r : ℕ) (ps qs : List Place)
    → numbers_at f r (ps ++ qs) ≡ numbers_at f r ps ++ numbers_at f r qs
numbers_at-append f r [] qs = refl
numbers_at-append f r (p ∷ ps) qs =
    let rest = numbers_at-append f r ps qs in
    elim (Bool-cases (number f r p == 0)) [
      | inl gone ↦ rw gone rest
      | inr there ↦ rw there (ap (λ ns. number f r p ∷ ns) rest)
    ]

pub numbers_at-collect :
    (f : File) (r : ℕ) (n i : ℕ) (g : ℕ → List Place) (h : ℕ → List ℕ)
    → ((j : ℕ) → numbers_at f r (g j) ≡ h j)
    → numbers_at f r (collect n i g) ≡ collect n i h
unfolding collect
numbers_at-collect f r zero i g h e = refl
numbers_at-collect f r (suc n) i g h e =
    numbers_at-append f r (g i) (collect n (i + 1) g)
    ∙ ap (λ ns. ns ++ numbers_at f r (collect n (i + 1) g)) (e i)
    ∙ ap (λ ns. h i ++ ns) (numbers_at-collect f r n (i + 1) g h e)

pub numbers_at-none :
    (f : File) (r : ℕ) (ps : List Place) → All (λ p. number f r p ≡ 0) ps → numbers_at f r ps ≡ []
numbers_at-none f r [] a = refl
numbers_at-none f r (p ∷ ps) a =
    let gone : (number f r p == 0) ≡ true = ground (arith, a.0) in
    rw gone (numbers_at-none f r ps a.1)

-- A number that none of the collected is, is at none of the places.
pub of_numbers_at :
    (f : File) (r n : ℕ) (ps : List Place)
    → n ≢ 0
    → Absent n (numbers_at f r ps)
    → All (λ p. number f r p ≢ n) ps
of_numbers_at f r n [] h a = tt
of_numbers_at f r n (p ∷ ps) h a =
    let motive : Bool → Type 0 =
      λ b. Absent n (if b then numbers_at f r ps else number f r p ∷ numbers_at f r ps) in
    elim (Bool-cases (number f r p == 0)) [
      | inl gone ↦
          (λ e. h (ground (arith, gone, e)), of_numbers_at f r n ps h (subst motive gone a))
      | inr there ↦ let rest = subst motive there a in (rest.0, of_numbers_at f r n ps h rest.1)
    ]
