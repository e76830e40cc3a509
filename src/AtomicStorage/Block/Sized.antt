-- ===== src/AtomicStorage/Block/Sized.antt =====
-- Blocks without bytes past their size: the numbers that go into a block stay in it (src/storage.cpp).
use chained_block_storage.Base.{ℕ, zero, suc, ◌+◌, ◌*◌, ◌≤◌, ◌<◌, ◌≡◌, refl, ◌∙◌, inr, arith}
use chained_block_storage.AtomicStorage.Block.{
  Block, block_size, zero_block, get_bytes, get_word, set_word, file_block_num, set_entry,
}
use chained_block_storage.AtomicStorage.Block.Words.{put_bytes-other}

abbrev pub SizedBlock : Block → Type 0
SizedBlock b = (q : ℕ) → block_size ≤ q → b q ≡ 0

pub zero_block-Sized : SizedBlock zero_block
zero_block-Sized q h = refl

pub set_word-SizedBlock :
    (b : Block) (k n : ℕ) → k < 512 → SizedBlock b → SizedBlock (set_word b k n)
unfolding set_word
set_word-SizedBlock b k n h s q far =
    put_bytes-other b (8 * k) 8 n q (inr (omega (arith, h, far))) ∙ s q far

pub set_entry-SizedBlock :
    (b : Block) (l n u : ℕ) → l < 256 → SizedBlock b → SizedBlock (set_entry b l n u)
unfolding set_entry
set_entry-SizedBlock b l n u h s =
    set_word-SizedBlock (set_word b (2 * l + 1) n) (2 * l) u (omega (arith, h))
      (set_word-SizedBlock b (2 * l + 1) n (omega (arith, h)) s)

get_bytes-none : (b : Block) (p n : ℕ) → ((q : ℕ) → p ≤ q → b q ≡ 0) → get_bytes b p n ≡ 0
unfolding get_bytes
get_bytes-none b p zero h = refl
get_bytes-none b p (suc n) h =
    let rest = get_bytes-none b (p + 1) n (λ q l. h q (omega (arith, l))) in
    omega (arith, h p (omega arith), rest)

-- There are no numbers past the size.
pub get_word-SizedBlock : (b : Block) (k : ℕ) → SizedBlock b → 512 ≤ k → get_word b k ≡ 0
unfolding get_word
get_word-SizedBlock b k s h = get_bytes-none b (8 * k) 8 (λ q l. s q (omega (arith, l, h)))

pub file_block_num-SizedBlock :
    (b : Block) (l : ℕ) → SizedBlock b → 256 ≤ l → file_block_num b l ≡ 0
unfolding file_block_num
file_block_num-SizedBlock b l s h = get_word-SizedBlock b (2 * l + 1) s (omega (arith, h))
