-- ===== src/AtomicStorage/Alloc.antt =====
-- Which blocks of the file are in use, and what a new number is.
use chained_block_storage.Base.{ℕ, ◌+◌, ◌≤◌, ◌<◌, ◌≡◌, ◌≢◌, refl, subst, List, [], ◌∷◌, All, arith}
use chained_block_storage.AtomicStorage.State.{Volume, next_block_num, get_free_block_num}

-- The number is not in the list, and no number is in it twice.
abbrev pub Absent : ℕ → List ℕ → Type 0
Absent n = All (λ k. k ≢ n)

abbrev pub Distinct : List ℕ → Type 0
Distinct [] = Unit
Distinct (n ∷ ns) = Absent n ns × Distinct ns

-- The number is one of the file's, and is not free.
abbrev pub Used : Volume → ℕ → Type 0
Used v n = (1 ≤ n) × (n ≤ v.num_total_blocks) × Absent n v.free_blocks

pub record Sane (v : Volume) : Type 0 where
  pub distinct : Distinct v.free_blocks
  pub bounded : All (λ n. (1 ≤ n) × (n ≤ v.num_total_blocks)) v.free_blocks

bounded_mono :
    (t : ℕ) (ns : List ℕ) → All (λ n. (1 ≤ n) × (n ≤ t)) ns → All (λ n. (1 ≤ n) × (n ≤ t + 1)) ns
bounded_mono t [] h = tt
bounded_mono t (n ∷ ns) h = ((h.0.0, omega arith), bounded_mono t ns h.1)

Absent-above : (t n : ℕ) (ns : List ℕ) → t < n → All (λ n. (1 ≤ n) × (n ≤ t)) ns → Absent n ns
Absent-above t n [] b h = tt
Absent-above t n (k ∷ ns) b h = (λ e. absurd (omega arith), Absent-above t n ns b h.1)

-- From `v` to `v'` the number `n` comes into use, and nothing else changes.
pub record Allocated (v : Volume) (n : ℕ) (v' : Volume) : Type 0 where
  pub fresh : ¬ Used v n
  pub used : Used v' n
  pub keeps : (m : ℕ) → Used v m → Used v' m
  pub sane : Sane v'
  pub grows : v'.num_total_blocks ≤ v.num_total_blocks + 1
  pub not_less : v.num_total_blocks ≤ v'.num_total_blocks
  pub remaining : (m : ℕ) → Absent m v.free_blocks → Absent m v'.free_blocks

next_block_num-Allocated :
    (v : Volume) (free : List ℕ)
    → Sane v
    → v.free_blocks ≡ free
    → Allocated v (next_block_num free v).0 (next_block_num free v).1
unfolding next_block_num
next_block_num-Allocated v [] s e = record {
  fresh = λ u. absurd (omega (arith, u.1));
  used = (omega arith, omega arith, rw e tt);
  keeps = λ m u. (u.0, omega (arith, u.1), u.2);
  sane = record {
    distinct = s.distinct;
    bounded = bounded_mono v.num_total_blocks v.free_blocks s.bounded;
  };
  grows = omega arith;
  not_less = omega arith;
  remaining = λ m h. h;
}
next_block_num-Allocated v (n ∷ rest) s e =
    let distinct : Distinct (n ∷ rest) = subst Distinct e s.distinct in
    let bounded = subst (All (λ k. (1 ≤ k) × (k ≤ v.num_total_blocks))) e s.bounded in
    record {
      fresh = λ u. absurd ((subst (Absent n) e u.2).0 refl);
      used = (bounded.0.0, bounded.0.1, distinct.0);
      keeps = λ m u. (u.0, u.1, (subst (Absent m) e u.2).1);
      sane = record { distinct = distinct.1; bounded = bounded.1 };
      grows = omega arith;
      not_less = omega arith;
      remaining = λ m h. (subst (Absent m) e h).1;
    }

pub get_free_block_num-Allocated :
    (v : Volume) → Sane v → Allocated v (get_free_block_num v).0 (get_free_block_num v).1
unfolding get_free_block_num
get_free_block_num-Allocated v s = next_block_num-Allocated v v.free_blocks s refl
