-- ===== src/Tables/Request.antt =====
-- The messages that name a client's request (protos/server.proto), the order of their timestamps
-- (src/headers/tables.hpp), and the exceptions of the tables. Times lie after 1970, so both parts
-- of a timestamp are natural numbers; a text is the list of its bytes.
use chained_block_storage.Base.{ℕ, ◌%◌, ◌^◌, ◌≡◌, Bool, ◌&&◌, ◌||◌, List, arith, ltb, ◌==◌}
use chained_block_storage.OrderedMap.{Order}

pub record Timestamp : Type 0 where
  pub seconds : ℕ
  pub nanos : ℕ

pub record ClientRequestId : Type 0 where
  pub ip : List ℕ
  pub pid : ℕ
  pub timestamp : Timestamp

-- `googleTimestampComparator`.
unfoldable pub timestamp_lt : Timestamp → Timestamp → Bool
timestamp_lt t1 t2 = ltb t1.seconds t2.seconds || t1.seconds == t2.seconds && ltb t1.nanos t2.nanos

pub timestamp_lt_trans :
    (a b c : Timestamp)
    → timestamp_lt a b ≡ Bool.true
    → timestamp_lt b c ≡ Bool.true
    → timestamp_lt a c ≡ Bool.true
unfolding timestamp_lt
timestamp_lt_trans a b c h k = ground arith

pub timestamp_lt_irrefl : (a : Timestamp) → timestamp_lt a a ≡ Bool.false
unfolding timestamp_lt
timestamp_lt_irrefl a = ground arith

pub timestamp_lt-same :
    (a b : Timestamp) → timestamp_lt a b ≡ Bool.false → timestamp_lt b a ≡ Bool.false → a ≡ b
unfolding timestamp_lt
timestamp_lt-same a b h k = ground arith

-- The comparator is a strict total order, as `std::map` needs.
abbrev pub timestamp_order : Order Timestamp
timestamp_order = record {
  lt = timestamp_lt;
  irrefl = timestamp_lt_irrefl;
  trans = timestamp_lt_trans;
  same_eq = timestamp_lt-same;
}

pub data Exception : Type 0 where
  invalid_argument length_error : Exception

-- A call that throws leaves the table as it was.
pub data Result {ℓ} (A : Type ℓ) : Type ℓ where
  ok : A → Result A
  throws : Exception → Result A

-- The conversion of a `long` that is not negative to `int`, as its 32 bits.
abbrev pub int_bits : ℕ → ℕ
int_bits n = n % 2 ^ 32
