-- ===== src/AtomicStorage/Open/Sorted.antt =====
-- The free blocks that the start finds for the used blocks in any order (src/storage.cpp, the end of
-- `open_volume`).
use chained_block_storage.Base.{
  ℕ, zero, suc, ◌+◌, ◌≤◌, ◌≢◌, Bool, if◌then◌else◌, inl, inr, List, [], ◌∷◌, All, All-map, arith,
  leb, ◌==◌, Bool-cases, subst,
}
use chained_block_storage.AtomicStorage.Alloc.{Absent, Distinct}
use chained_block_storage.AtomicStorage.Open.{insert_sorted, sort, unused}
use chained_block_storage.AtomicStorage.Open.Unused.{Rising, Within, unused-exact}

module _ (P : ℕ → Type 0) where
  insert_sorted-All : (n : ℕ) (ks : List ℕ) → P n → All P ks → All P (insert_sorted n ks)
  unfolding insert_sorted
  insert_sorted-All n [] h a = (h, tt)
  insert_sorted-All n (k ∷ ks) h a =
      let rest = insert_sorted-All n ks h a.1 in
      elim (Bool-cases (leb n k)) [ inl le ↦ rw le (h, a) | inr gt ↦ rw gt (a.0, rest) ]

  of_insert_sorted : (n : ℕ) (ks : List ℕ) → All P (insert_sorted n ks) → P n × All P ks
  unfolding insert_sorted
  of_insert_sorted n [] a = a
  of_insert_sorted n (k ∷ ks) a =
      let motive : Bool → Type 0 = λ b. All P (if b then n ∷ k ∷ ks else k ∷ insert_sorted n ks) in
      elim (Bool-cases (leb n k)) [
        | inl le ↦ subst motive le a
        | inr gt ↦
            let later = subst motive gt a in
            let rest = of_insert_sorted n ks later.1 in (rest.0, (later.0, rest.1))
      ]

  pub sort-All : (ks : List ℕ) → All P ks → All P (sort ks)
  unfolding sort
  sort-All [] a = tt
  sort-All (k ∷ ks) a = insert_sorted-All k (sort ks) a.0 (sort-All ks a.1)

  pub of_sort : (ks : List ℕ) → All P (sort ks) → All P ks
  unfolding sort
  of_sort [] a = tt
  of_sort (k ∷ ks) a = let both = of_insert_sorted k (sort ks) a in (both.0, of_sort ks both.1)

insert_sorted-Rising :
    (b n : ℕ) (ks : List ℕ) → b ≤ n → Absent n ks → Rising b ks → Rising b (insert_sorted n ks)
unfolding insert_sorted
insert_sorted-Rising b n [] h a r = (h, tt)
insert_sorted-Rising b n (k ∷ ks) h a r = elim (Bool-cases (leb n k)) [
  | inl le ↦ rw le (h, (ground (arith, le, a.0), r.1))
  | inr gt ↦ rw gt (r.0, insert_sorted-Rising (suc k) n ks (ground (arith, gt)) a.1 r.1)
]

sort-Rising : (b : ℕ) (ks : List ℕ) → Distinct ks → All (λ k. b ≤ k) ks → Rising b (sort ks)
unfolding sort
sort-Rising b [] d h = tt
sort-Rising b (k ∷ ks) d h =
    insert_sorted-Rising b k (sort ks) h.0 (sort-All (λ j. j ≢ k) ks d.0) (sort-Rising b ks d.1 h.1)

unused-above : (n b : ℕ) (used : List ℕ) → All (λ k. b ≤ k) (unused n b used)
unfolding unused
unused-above zero b used = tt
unused-above (suc n) b [] = (
  omega arith,
  All-map (λ k. b + 1 ≤ k) (λ k. b ≤ k) (λ k h. omega (arith, h)) (unused n (b + 1) [])
      (unused-above n (b + 1) []),
)
unused-above (suc n) b (j ∷ used) =
    let skip = unused-above n (b + 1) used in
    let push = unused-above n (b + 1) (j ∷ used) in
    elim (Bool-cases (b == j)) [
      | inl same ↦ rw same (
          All-map (λ k. b + 1 ≤ k) (λ k. b ≤ k) (λ k h. omega (arith, h)) (unused n (b + 1) used)
            skip)
      | inr differ ↦ rw differ (
        omega arith,
        All-map (λ k. b + 1 ≤ k) (λ k. b ≤ k) (λ k h. omega (arith, h))
            (unused n (b + 1) (j ∷ used)) push,
      )
    ]

above_Absent : (b : ℕ) (ks : List ℕ) → All (λ k. b + 1 ≤ k) ks → Absent b ks
above_Absent b ks h =
    All-map (λ k. b + 1 ≤ k) (λ k. k ≢ b) (λ k le e. absurd (omega (arith, le, e))) ks h

pub unused-Distinct : (n b : ℕ) (used : List ℕ) → Distinct (unused n b used)
unfolding unused
unused-Distinct zero b used = tt
unused-Distinct (suc n) b [] =
    (above_Absent b (unused n (b + 1) []) (unused-above n (b + 1) []), unused-Distinct n (b + 1) [])
unused-Distinct (suc n) b (j ∷ used) =
    let skip = unused-Distinct n (b + 1) used in
    let push = unused-Distinct n (b + 1) (j ∷ used) in
    elim (Bool-cases (b == j)) [
      | inl same ↦ rw same skip
      | inr differ ↦
          rw differ
            (above_Absent b (unused n (b + 1) (j ∷ used)) (unused-above n (b + 1) (j ∷ used)), push)
    ]

-- The free blocks at the start are exactly the blocks that are not used, each once: for `n` blocks from
-- number `b` on and used blocks in any order, none of them twice and none below `b`.
pub unused-sort :
    (n b : ℕ) (used : List ℕ)
    → Distinct used
    → All (λ k. b ≤ k) used
    → All (Within n b used) (unused n b (sort used))
      × ((k : ℕ) → Within n b used k → ¬ Absent k (unused n b (sort used)))
      × Distinct (unused n b (sort used))
unused-sort n b used d h =
    let exact = unused-exact n b (sort used) (sort-Rising b used d h) in
    (
      All-map (Within n b (sort used)) (Within n b used)
          (λ k w. (w.0, w.1, of_sort (λ j. j ≢ k) used w.2)) (unused n b (sort used)) exact.0,
      λ k w. exact.1 k (w.0, w.1, sort-All (λ j. j ≢ k) used w.2),
      unused-Distinct n b (sort used),
    )
