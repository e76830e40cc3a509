-- ===== src/Timing.antt =====
-- The measuring of times (src/headers/timing.h).
use chained_block_storage.Base.{
  ℕ, ◌+◌, ◌-◌, ◌*◌, ◌%◌, ◌^◌, ◌≤◌, ◌<◌, ◌≡◌, List, [], ◌∷◌, All, arith, ltb, if◌then◌else◌,
}

-- `struct timespec`, of a clock that is not negative.
pub record Timespec : Type 0 where
  pub tv_sec : ℕ
  pub tv_nsec : ℕ

abbrev pub nanos_per_sec : ℕ
nanos_per_sec = 1000 * 1000 * 1000

-- The difference of two numbers as an `unsigned long`.
unfoldable pub minus_ulong : ℕ → ℕ → ℕ
minus_ulong a b = (a + (2 ^ 64 - b % 2 ^ 64)) % 2 ^ 64

unfoldable pub nanos_diff : Timespec → Timespec → ℕ
unfolding minus_ulong
nanos_diff start end =
    let nanos = minus_ulong end.tv_nsec start.tv_nsec in
    let secs = minus_ulong end.tv_sec start.tv_sec in
    let plain = (nanos + nanos_per_sec * secs) % 2 ^ 64 in
    let carried =
      ((nanos + nanos_per_sec) % 2 ^ 64 + nanos_per_sec * minus_ulong secs 1) % 2 ^ 64 in
    if ltb end.tv_nsec start.tv_nsec then carried else plain

-- `DO_TRIALS`, by the clock before and after each trial: the least time so far is kept.
unfoldable pub do_trials : List (Timespec × Timespec) → ℕ → ℕ
unfolding nanos_diff
do_trials [] var = var
do_trials (t ∷ ts) var =
    let nanos = nanos_diff t.0 t.1 in do_trials ts (if ltb nanos var then nanos else var)

abbrev pub nanos_of : Timespec → ℕ
nanos_of t = t.tv_nsec + nanos_per_sec * t.tv_sec

-- The difference of two times of the clock, the later one second, is exact where the seconds fit into 32
-- bits.
pub nanos_diff-exact :
    (start end : Timespec)
    → start.tv_nsec < nanos_per_sec
    → end.tv_nsec < nanos_per_sec
    → end.tv_sec < 2 ^ 32
    → nanos_of start ≤ nanos_of end
    → nanos_diff start end ≡ nanos_of end - nanos_of start
unfolding nanos_diff minus_ulong
nanos_diff-exact start end hs he small before = ground (arith, hs, he, small, before)

do_trials-start : (ts : List (Timespec × Timespec)) (var : ℕ) → do_trials ts var ≤ var
unfolding do_trials
do_trials-start [] var = omega arith
do_trials-start (t ∷ ts) var =
    let rest = do_trials-start ts in ground (arith, rest (nanos_diff t.0 t.1), rest var)

-- The result is at most the time of each trial.
do_trials-least :
    (ts : List (Timespec × Timespec)) (var : ℕ)
    → All (λ t. do_trials ts var ≤ nanos_diff t.0 t.1) ts
unfolding do_trials
do_trials-least [] var = tt
do_trials-least (t ∷ ts) var =
    let nanos = nanos_diff t.0 t.1 in
    let next : ℕ = if ltb nanos var then nanos else var in
    let small : next ≤ nanos = ground arith in
    (omega (arith, do_trials-start ts next, small), do_trials-least ts next)
