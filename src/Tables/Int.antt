-- ===== src/Tables/Int.antt =====
-- The type `int`, and the conversion of a sequence number (a `long` that is not negative) to it.
use chained_block_storage.Base.{
  ℕ, ◌-◌, ◌%◌, ◌^◌, ◌<◌, ◌≡◌, Bool, true, false, arith, ltb, if◌then◌else◌,
}
use chained_block_storage.OrderedMap.{Order}

-- `negsuc n` is -(n + 1).
pub data ℤ : Type 0 where
  pos : ℕ → ℤ
  negsuc : ℕ → ℤ

unfoldable pub ltb_ℤ : ℤ → ℤ → Bool
ltb_ℤ (pos a) (pos b) = ltb a b
ltb_ℤ (pos a) (negsuc b) = false
ltb_ℤ (negsuc a) (pos b) = true
ltb_ℤ (negsuc a) (negsuc b) = ltb b a

pub ltb_ℤ-irrefl : (a : ℤ) → ltb_ℤ a a ≡ false
unfolding ltb_ℤ
ltb_ℤ-irrefl a = ground arith

pub ltb_ℤ-trans : (a b c : ℤ) → ltb_ℤ a b ≡ true → ltb_ℤ b c ≡ true → ltb_ℤ a c ≡ true
unfolding ltb_ℤ
ltb_ℤ-trans a b c h k = ground arith

pub ltb_ℤ-same : (a b : ℤ) → ltb_ℤ a b ≡ false → ltb_ℤ b a ≡ false → a ≡ b
unfolding ltb_ℤ
ltb_ℤ-same a b h k = ground arith

abbrev pub int_order : Order ℤ
int_order = record { lt = ltb_ℤ; irrefl = ltb_ℤ-irrefl; trans = ltb_ℤ-trans; same_eq = ltb_ℤ-same }

-- The low 32 bits, read in two's complement.
unfoldable pub to_int : ℕ → ℤ
to_int n =
    let bits = n % 2 ^ 32 in if ltb bits (2 ^ 31) then pos bits else negsuc (2 ^ 32 - 1 - bits)

pub to_int_small : (n : ℕ) → n < 2 ^ 31 → to_int n ≡ pos n
unfolding to_int
to_int_small n h = ground arith
