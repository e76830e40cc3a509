-- ===== src/AtomicStorage/Block/Words.antt =====
-- A number that is put into a block comes out of it, and leaves the others as they were.
use chained_block_storage.Base.{
  ℕ, zero, suc, ◌+◌, ◌*◌, ◌/◌, ◌%◌, ◌^◌, ◌≤◌, ◌<◌, ◌≡◌, ◌≢◌, ◌⊎◌, inl, inr, refl, ◌∙◌, arith, ◌==◌,
  if◌then◌else◌, dec_lt,
}
use chained_block_storage.AtomicStorage.Block.{
  Block, zero_block, get_bytes, put_bytes, get_word, set_word, last_updated, file_block_num,
  set_entry,
}

pub put_bytes-other : (b : Block) (p n v q : ℕ) → (q < p) ⊎ (p + n ≤ q) → put_bytes b p n v q ≡ b q
unfolding put_bytes
put_bytes-other b p zero v q h = refl
put_bytes-other b p (suc n) v q h =
    let rest = put_bytes-other (λ x. if x == p then v % 256 else b x) (p + 1) n (v / 256) q in
    ground (arith, h, rest)

get_bytes-same :
    (b c : Block) (p n : ℕ)
    → ((q : ℕ) → p ≤ q → q < p + n → b q ≡ c q)
    → get_bytes b p n ≡ get_bytes c p n
unfolding get_bytes
get_bytes-same b c p zero h = refl
get_bytes-same b c p (suc n) h = omega (
  arith,
  h p (omega arith) (omega arith),
  get_bytes-same b c (p + 1) n (λ q l u. h q (omega arith) (omega arith)),
)

-- The numbers below it fit into `n` bytes.
limit : ℕ → ℕ
limit zero = 1
limit (suc n) = 256 * limit n

get_bytes-put_bytes : (b : Block) (p n v : ℕ) → v < limit n → get_bytes (put_bytes b p n v) p n ≡ v
unfolding get_bytes put_bytes limit
get_bytes-put_bytes b p zero v h = omega arith
get_bytes-put_bytes b p (suc n) v h =
    let first =
      put_bytes-other (λ x. if x == p then v % 256 else b x) (p + 1) n (v / 256) p
        (inl (omega arith)) in
    let rest : get_bytes (put_bytes b p (suc n) v) (p + 1) n ≡ v / 256 =
      get_bytes-put_bytes (λ x. if x == p then v % 256 else b x) (p + 1) n (v / 256)
        (omega arith) in
    ground (arith, first, rest)

-- A number that fits into eight bytes.
pub get_word-set_word : (b : Block) (k v : ℕ) → v < 2 ^ 64 → get_word (set_word b k v) k ≡ v
unfolding get_word set_word limit
get_word-set_word b k v h = get_bytes-put_bytes b (8 * k) 8 v h

pub get_word-set_word_ne :
    (b : Block) (k j v : ℕ) → j ≢ k → get_word (set_word b k v) j ≡ get_word b j
unfolding get_word set_word
get_word-set_word_ne b k j v h = get_bytes-same _ b (8 * j) 8 (λ q l u.
    put_bytes-other b (8 * k) 8 v q
      (elim (dec_lt j k) [ yes below ↦ inl (omega arith) | no above ↦ inr (omega arith) ]))

pub get_word-zero : (k : ℕ) → get_word zero_block k ≡ 0
unfolding get_word get_bytes
get_word-zero k = refl

pub file_block_num-set_entry :
    (b : Block) (l n s : ℕ) → n < 2 ^ 64 → file_block_num (set_entry b l n s) l ≡ n
unfolding file_block_num set_entry
file_block_num-set_entry b l n s h =
    get_word-set_word_ne (set_word b (2 * l + 1) n) (2 * l) (2 * l + 1) s
      (λ e. absurd (omega arith))
    ∙ get_word-set_word b (2 * l + 1) n h

pub file_block_num-set_entry_ne :
    (b : Block) (l j n s : ℕ) → j ≢ l → file_block_num (set_entry b l n s) j ≡ file_block_num b j
unfolding file_block_num set_entry
file_block_num-set_entry_ne b l j n s h =
    get_word-set_word_ne (set_word b (2 * l + 1) n) (2 * l) (2 * j + 1) s
      (λ e. absurd (omega arith))
    ∙ get_word-set_word_ne b (2 * l + 1) (2 * j + 1) n (λ e. h (omega arith))

pub last_updated-set_entry :
    (b : Block) (l n s : ℕ) → s < 2 ^ 64 → last_updated (set_entry b l n s) l ≡ s
unfolding last_updated set_entry
last_updated-set_entry b l n s h = get_word-set_word (set_word b (2 * l + 1) n) (2 * l) s h

pub last_updated-set_entry_ne :
    (b : Block) (l j n s : ℕ) → j ≢ l → last_updated (set_entry b l n s) j ≡ last_updated b j
unfolding last_updated set_entry
last_updated-set_entry_ne b l j n s h =
    get_word-set_word_ne (set_word b (2 * l + 1) n) (2 * l) (2 * j) s (λ e. h (omega arith))
    ∙ get_word-set_word_ne b (2 * l + 1) (2 * j) n (λ e. absurd (omega arith))

pub file_block_num-zero : (l : ℕ) → file_block_num zero_block l ≡ 0
unfolding file_block_num
file_block_num-zero l = get_word-zero (2 * l + 1)
