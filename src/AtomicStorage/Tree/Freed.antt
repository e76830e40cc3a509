-- ===== src/AtomicStorage/Tree/Freed.antt =====
-- The numbers that a write gives up: those on the way to its place that are there.
use chained_block_storage.Base.{
  ℕ, ◌≡◌, ◌≢◌, refl, ap, sym, ◌∙◌, inl, inr, List, [], ◌∷◌, ◌++◌, All, ◌==◌, arith, if◌then◌else◌,
  Bool-cases,
}
use chained_block_storage.AtomicStorage.Index.{get_second_level, get_third_level, get_last_level}
use chained_block_storage.AtomicStorage.State.{File}
use chained_block_storage.AtomicStorage.Write.{no_path, read_path, freed, to_free}
use chained_block_storage.AtomicStorage.Alloc.{Absent, Distinct}
use chained_block_storage.AtomicStorage.Tree.{Place, at_root, at_second, at_third, at_last, number}
use chained_block_storage.AtomicStorage.Tree.Unique.{Unique}

-- The places on the way to the block of an offset.
abbrev pub way_places : ℕ → List Place
way_places o =
    at_root
    ∷ at_second (get_second_level o)
    ∷ at_third (get_second_level o) (get_third_level o)
    ∷ at_last (get_second_level o) (get_third_level o) (get_last_level o)
    ∷ []

-- The numbers at some places, those that are not 0.
abbrev pub numbers_at : File → ℕ → List Place → List ℕ
numbers_at f r [] = []
numbers_at f r (p ∷ ps) =
    let rest = numbers_at f r ps in if number f r p == 0 then rest else number f r p ∷ rest

freed-last : (n : ℕ) → freed n 0 ≡ (if n == 0 then [] else n ∷ [])
unfolding freed
freed-last n = elim (Bool-cases (n == 0)) [ inl there ↦ rw there refl | inr there ↦ rw there refl ]

freed-all :
    (a b c d : ℕ)
    → freed a 0 ++ freed b 0 ++ freed c 0 ++ freed d 0 ≡ (
        let r3 = if d == 0 then [] else d ∷ [] in
        let r2 = if c == 0 then r3 else c ∷ r3 in
        let r1 = if b == 0 then r2 else b ∷ r2 in if a == 0 then r1 else a ∷ r1)
freed-all a b c d = rw (freed-last d, freed-last c, freed-last b, freed-last a) (ground arith)

pub to_free-one :
    (f : File) (r o : ℕ) → to_free (read_path f r o) no_path ≡ numbers_at f r (way_places o)
unfolding to_free read_path no_path
to_free-one f r o =
    freed-all r (number f r (at_second (get_second_level o)))
      (number f r (at_third (get_second_level o) (get_third_level o)))
      (number f r (at_last (get_second_level o) (get_third_level o) (get_last_level o)))

pub All-numbers_at :
    (P : ℕ → Type 0) (Q : Place → Type 0) (f : File) (r : ℕ) (ps : List Place)
    → All Q ps
    → ((p : Place) → Q p → number f r p ≢ 0 → P (number f r p))
    → All P (numbers_at f r ps)
All-numbers_at P Q f r [] a h = tt
All-numbers_at P Q f r (p ∷ ps) a h = elim (Bool-cases (number f r p == 0)) [
  | inl zero_there ↦ rw zero_there (All-numbers_at P Q f r ps a.1 h)
  | inr there ↦
      rw there (h p a.0 (λ e. absurd (ground (arith, there, e))), All-numbers_at P Q f r ps a.1 h)
]

abbrev pub DistinctPlaces : List Place → Type 0
DistinctPlaces [] = Unit
DistinctPlaces (p ∷ ps) = All (λ q. p ≢ q) ps × DistinctPlaces ps

pub numbers_at-Distinct :
    (f : File) (r : ℕ) (ps : List Place)
    → Unique f r
    → DistinctPlaces ps
    → Distinct (numbers_at f r ps)
numbers_at-Distinct f r [] u d = tt
numbers_at-Distinct f r (p ∷ ps) u d = elim (Bool-cases (number f r p == 0)) [
  | inl zero_there ↦ rw zero_there (numbers_at-Distinct f r ps u d.1)
  | inr there ↦
      let apart : Absent (number f r p) (numbers_at f r ps) =
        All-numbers_at (λ k. k ≢ number f r p) (λ q. p ≢ q) f r ps d.0
          (λ q ne h e. ne (u p q (λ z. h (e ∙ z)) (sym e))) in
      rw there (apart, numbers_at-Distinct f r ps u d.1)
]

pub way_places-Distinct : (o : ℕ) → DistinctPlaces (way_places o)
way_places-Distinct o = (
  (λ e. absurd (cc), (λ e. absurd (cc), (λ e. absurd (cc), tt))),
  ((λ e. absurd (cc), (λ e. absurd (cc), tt)), ((λ e. absurd (cc), tt), (tt, tt))),
)

pub numbers_at-same :
    (f g : File) (r t : ℕ)
    → ((p : Place) → number g t p ≡ number f r p)
    → (ps : List Place) → numbers_at g t ps ≡ numbers_at f r ps
numbers_at-same f g r t h [] = refl
numbers_at-same f g r t h (p ∷ ps) =
    let rest = numbers_at-same f g r t h ps in
    ap (λ (x : ℕ × List ℕ). if x.0 == 0 then x.1 else x.0 ∷ x.1) (λ i. (h p i, rest i))
