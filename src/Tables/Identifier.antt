-- ===== src/Tables/Identifier.antt =====
-- The text `ip() + ":" + std::to_string(pid())`, under which `ReplayLog` files a client
-- (src/tablesImpl/replayLog.cpp), as the list of its bytes.
use mathlib.Core.List.{List, [], ◌∷◌, ◌++◌}
use native.Mathlib.Decide.{ℕ_discrete}
use chained_block_storage.Base.{
  ℕ, zero, suc, ◌+◌, ◌-◌, ◌*◌, ◌/◌, ◌%◌, ◌<◌, ◌≡◌, refl, ap, sym, subst, ◌↔◌, ◌∙◌, All, All-append,
  arith, ltb, if◌then◌else◌, Bool-cases, inl, inr,
}
use chained_block_storage.Tables.Request.{ClientRequestId}

unfoldable pub Text-discrete : Discrete (List ℕ)
Text-discrete = hlevel ℕ_discrete

-- The decimal digits of `n`; `n + 1` rounds are enough, as each divides what is left by ten.
to_string_fuel : ℕ → ℕ → List ℕ
to_string_fuel zero n = []
to_string_fuel (suc f) n =
    let shorter = to_string_fuel f (n / 10) ++ (48 + n % 10) ∷ [] in
    if ltb n 10 then (48 + n) ∷ [] else shorter

unfoldable pub to_string : ℕ → List ℕ
unfolding to_string_fuel
to_string n = to_string_fuel (suc n) n

unfoldable pub identifier : ClientRequestId → List ℕ
unfolding to_string
identifier id = id.ip ++ 58 ∷ to_string id.pid

-- The number that a text of digits stands for, read from the left.
value : ℕ → List ℕ → ℕ
value acc [] = acc
value acc (d ∷ ds) = value (10 * acc + (d - 48)) ds

value-append : (acc d : ℕ) (ds : List ℕ) → value acc (ds ++ d ∷ []) ≡ 10 * value acc ds + (d - 48)
unfolding value
value-append acc d [] = refl
value-append acc d (x ∷ ds) = value-append (10 * acc + (x - 48)) d ds

value-to_string_fuel : (f n : ℕ) → n < f → value 0 (to_string_fuel f n) ≡ n
unfolding to_string_fuel
value-to_string_fuel zero n h = absurd (omega arith)
value-to_string_fuel (suc f) n h = elim (Bool-cases (ltb n 10)) [
  | inl small ↦ rw small (unfold value in omega arith)
  | inr large ↦
      rw (large, value-append) (omega (arith, value-to_string_fuel f (n / 10) (ground arith)))
]

-- Below the colon's code: the digits are, and so a text of digits holds no colon.
abbrev IsBelowColon : List ℕ → Type 0
IsBelowColon = All (λ d. d < 58)

to_string_fuel-IsBelowColon : (f n : ℕ) → IsBelowColon (to_string_fuel f n)
unfolding to_string_fuel
to_string_fuel-IsBelowColon zero n = tt
to_string_fuel-IsBelowColon (suc f) n = elim (Bool-cases (ltb n 10)) [
  | inl small ↦ rw small (ground arith, tt)
  | inr large ↦ rw large (
      All-append _ (to_string_fuel f (n / 10)) _ (to_string_fuel-IsBelowColon f (n / 10))
        (omega arith, tt))
]

not-IsBelowColon : (xs ys : List ℕ) → ¬ IsBelowColon (xs ++ 58 ∷ ys)
not-IsBelowColon [] ys h = absurd (omega arith)
not-IsBelowColon (x ∷ xs) ys h = not-IsBelowColon xs ys h.1

split_last_colon :
    (xs ys ds es : List ℕ)
    → IsBelowColon ds
    → IsBelowColon es
    → xs ++ 58 ∷ ds ≡ ys ++ 58 ∷ es
    → (xs ≡ ys) × (ds ≡ es)
split_last_colon [] [] ds es hd he e = (refl, cc)
split_last_colon [] (y ∷ ys) ds es hd he e =
    let rest : ds ≡ ys ++ 58 ∷ es = cc in
    absurd (not-IsBelowColon ys es (subst IsBelowColon rest hd))
split_last_colon (x ∷ xs) [] ds es hd he e =
    let rest : es ≡ xs ++ 58 ∷ ds = cc in
    absurd (not-IsBelowColon xs ds (subst IsBelowColon rest he))
split_last_colon (x ∷ xs) (y ∷ ys) ds es hd he e =
    let (same, rest) = split_last_colon xs ys ds es hd he (cc) in (cc, rest)

to_string-injective : (m n : ℕ) → to_string m ≡ to_string n → m ≡ n
unfolding to_string
to_string-injective m n e =
    sym (value-to_string_fuel (suc m) m (omega arith))
    ∙ ap (value 0) e
    ∙ value-to_string_fuel (suc n) n (omega arith)

-- Two requests come under one text exactly when they are from the same address and process.
pub identifier-eq_iff :
    (a b : ClientRequestId) → (identifier a ≡ identifier b) ↔ ((a.ip ≡ b.ip) × (a.pid ≡ b.pid))
unfolding identifier
identifier-eq_iff a b = (
  λ e.
      let (ips, pids) =
        split_last_colon a.ip b.ip _ _ (to_string_fuel-IsBelowColon (suc a.pid) a.pid)
          (to_string_fuel-IsBelowColon (suc b.pid) b.pid) e in
      (ips, to_string-injective a.pid b.pid pids),
  λ h. rw (h.0, h.1),
)
