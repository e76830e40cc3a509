-- ===== src/AtomicStorage/Open/Unused.antt =====
-- The free blocks that the start of the storage finds (src/storage.cpp, the last loop of `open_volume`).
use chained_block_storage.Base.{
  ℕ, zero, suc, ◌+◌, ◌≤◌, ◌<◌, ◌≡◌, subst, Bool, if◌then◌else◌, inl, inr, List, [], ◌∷◌, All,
  All-map, arith, ◌==◌, Bool-cases,
}
use chained_block_storage.AtomicStorage.Alloc.{Absent}
use chained_block_storage.AtomicStorage.Open.{unused}

-- The numbers rise, from `b` on.
abbrev pub Rising : ℕ → List ℕ → Type 0
Rising b [] = Unit
Rising b (k ∷ ks) = (b ≤ k) × Rising (suc k) ks

Rising-Absent : (b n : ℕ) (ks : List ℕ) → Rising b ks → n < b → Absent n ks
Rising-Absent b n [] r h = tt
Rising-Absent b n (k ∷ ks) r h =
    (λ e. absurd (omega (arith, e, r.0, h)), Rising-Absent (suc k) n ks r.1 (omega (arith, r.0, h)))

-- The number is one of the `n` from `b` on, and not of the list.
abbrev pub Within : ℕ → ℕ → List ℕ → ℕ → Type 0
Within n b used k = (b ≤ k) × (k < b + n) × Absent k used

unused-Within : (n b : ℕ) (used : List ℕ) → Rising b used → All (Within n b used) (unused n b used)
unfolding unused
unused-Within zero b used r = tt
unused-Within (suc n) b [] r = (
  (omega arith, omega arith, tt),
  All-map (Within n (b + 1) []) (Within (suc n) b [])
      (λ k w. (omega (arith, w.0), omega (arith, w.1), tt)) (unused n (b + 1) [])
      (unused-Within n (b + 1) [] tt),
)
unused-Within (suc n) b (k ∷ used) r =
    let skip = unused-Within n (b + 1) used in
    let push = unused-Within n (b + 1) (k ∷ used) in
    elim (Bool-cases (b == k)) [
      | inl same ↦
          let e : b ≡ k = ground (arith, same) in
          rw same (
            All-map (Within n (b + 1) used) (Within (suc n) b (k ∷ used))
              (λ x w. (
                omega (arith, w.0),
                omega (arith, w.1),
                (λ z. absurd (omega (arith, w.0, e, z)), w.2),
              ))
              (unused n (b + 1) used) (skip (subst (λ x. Rising x used) (omega (arith, e)) r.1)))
      | inr differ ↦
          let above : b + 1 ≤ k = ground (arith, differ, r.0) in
          rw differ (
            (
              omega arith,
              omega arith,
              (
                λ z. absurd (omega (arith, above, z)),
                Rising-Absent (suc k) b used r.1 (omega (arith, above)),
              ),
            ),
            All-map (Within n (b + 1) (k ∷ used)) (Within (suc n) b (k ∷ used))
                (λ x w. (omega (arith, w.0), omega (arith, w.1), w.2)) (unused n (b + 1) (k ∷ used))
                (push (above, r.1)),
          )
    ]

unused-all :
    (n b : ℕ) (used : List ℕ) (k : ℕ)
    → Rising b used
    → Within n b used k
    → ¬ Absent k (unused n b used)
unfolding unused
unused-all zero b used k r w a = absurd (omega (arith, w.0, w.1))
unused-all (suc n) b [] k r w a =
    unused-all n (b + 1) [] k tt (ground (arith, w.0, a.0), omega (arith, w.1), tt) a.1
unused-all (suc n) b (j ∷ used) k r w a =
    let skip = unused-all n (b + 1) used k in
    let push = unused-all n (b + 1) (j ∷ used) k in
    let by_test : Bool → Type 0 =
      λ t. Absent k (if t then unused n (b + 1) used else b ∷ unused n (b + 1) (j ∷ used)) in
    elim (Bool-cases (b == j)) [
      | inl same ↦
          let e : b ≡ j = ground (arith, same) in
          let above : b + 1 ≤ k = ground (arith, w.0, w.2.0, e) in
          skip (subst (λ x. Rising x used) (omega (arith, e)) r.1)
            (above, omega (arith, w.1), w.2.1) (subst by_test same a)
      | inr differ ↦
          let rest = subst by_test differ a in
          push (ground (arith, differ, r.0), r.1)
            (ground (arith, w.0, rest.0), omega (arith, w.1), w.2) rest.1
    ]

-- With used numbers that rise from `b` on, the free ones are exactly the others.
pub unused-exact :
    (n b : ℕ) (used : List ℕ)
    → Rising b used
    → All (Within n b used) (unused n b used)
      × ((k : ℕ) → Within n b used k → ¬ Absent k (unused n b used))
unused-exact n b used r = (unused-Within n b used r, λ k w. unused-all n b used k r w)
