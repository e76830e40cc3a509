-- ===== src/AtomicStorage/Commit/Offsets.antt =====
-- The offsets of places as `get_modified_offsets` computes them (src/storage.cpp).
use chained_block_storage.Base.{ℕ, ◌<◌, ◌≡◌, ◌↔◌, arith}
use chained_block_storage.Tables.Int.{pos, to_int}
use chained_block_storage.AtomicStorage.Index.{num_indirect, num_entries, offset_of}
use chained_block_storage.AtomicStorage.Commit.{int_offset}

-- The offset of a place comes out right exactly if its second level index is below 4, which is the first
-- 2 GiB of the volume: the factors have type `int`.
pub int_offset-offset_of :
    (j k l : ℕ)
    → k < num_indirect
    → l < num_entries
    → (int_offset (offset_of 0 j k l) ≡ pos (offset_of 0 j k l)) ↔ (j < 4)
unfolding int_offset to_int offset_of
int_offset-offset_of j k l hk hl = (λ e. ground (arith, e, hk, hl), λ h. ground (arith, h, hk, hl))
