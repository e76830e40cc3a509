-- ===== src/FlatStorage/Waiting.antt =====
-- Two writes that wait at one offset of the flat storage (src/storage-nonatomic.cpp, `write`).
use chained_block_storage.Base.{
  ℕ, ◌%◌, ◌+◌, ◌≡◌, ◌≢◌, refl, ap, ◌∙◌, Option, none, some, true, false, List, [], ◌∷◌, arith, ◌==◌,
}
use chained_block_storage.AtomicStorage.Block.{Block, block_size}
use chained_block_storage.AtomicStorage.State.{assign, write_block}
use chained_block_storage.FlatStorage.{
  FlatVolume, FlatWrite, entry_block, entry_num, take_block_num, get_free_block_num, old_block,
  put_block, store, write_aligned, write,
}

-- What a write that waits is to free.
abbrev pub freed_by : Option FlatWrite → Option (List ℕ)
freed_by none = none
freed_by (some uw) = some uw.to_free

take_block_num-file :
    (free : List ℕ) (v : FlatVolume)
    → ((take_block_num free v).1.file ≡ v.file)
      × ((take_block_num free v).1.uncommitted_writes ≡ v.uncommitted_writes)
unfolding take_block_num
take_block_num-file [] v = (refl, refl)
take_block_num-file (n ∷ free) v = (refl, refl)

get_free_block_num-file :
    (v : FlatVolume)
    → ((get_free_block_num v).1.file ≡ v.file)
      × ((get_free_block_num v).1.uncommitted_writes ≡ v.uncommitted_writes)
unfolding get_free_block_num
get_free_block_num-file v = take_block_num-file v.free_blocks v

write-one :
    (v : FlatVolume) (buf : Block) (o s : ℕ)
    → o % block_size ≡ 0
    → write v buf o s ≡ write_aligned v buf o s
unfolding write
write-one v buf o s h = let one : (o % block_size == 0) ≡ true = ground (arith, h) in rw one refl

write_aligned-freed :
    (v : FlatVolume) (buf : Block) (o s : ℕ)
    → freed_by ((write_aligned v buf o s).uncommitted_writes s) ≡ some (old_block v.file o)
unfolding write_aligned put_block store assign
write_aligned-freed v buf o s =
    let same : (s == s) ≡ true = ground arith in
    rw same (ap (λ f. some (old_block f o)) (get_free_block_num-file v).0)

write_aligned-entry :
    (v : FlatVolume) (buf : Block) (o s : ℕ)
    → (get_free_block_num v).0 ≢ entry_block o
    → old_block (write_aligned v buf o s).file o ≡ old_block v.file o
unfolding write_aligned put_block store write_block old_block entry_num
write_aligned-entry v buf o s h =
    let other : (entry_block o == (get_free_block_num v).0) ≡ false = ground (arith, h) in
    rw other (ap (λ f. old_block f o) (get_free_block_num-file v).0)

-- Two writes of one block that both wait are both to free the old block: where the offset has a block,
-- and the number that the first write takes is not that of the block of its entry.
pub write-write :
    (v : FlatVolume) (buf1 buf2 : Block) (o s : ℕ)
    → o % block_size ≡ 0
    → entry_num v.file o ≢ 0
    → (get_free_block_num v).0 ≢ entry_block o
    → let w = write v buf1 o s in
      (freed_by (w.uncommitted_writes s) ≡ some (entry_num v.file o ∷ []))
      × (freed_by ((write w buf2 o (s + 1)).uncommitted_writes (s + 1))
          ≡ some (entry_num v.file o ∷ []))
unfolding old_block
write-write v buf1 buf2 o s aligned there h =
    let old : old_block v.file o ≡ entry_num v.file o ∷ [] = ground (arith, there) in
    let w = write_aligned v buf1 o s in
    rw (write-one v buf1 o s aligned, write-one w buf2 o (s + 1) aligned)
      (
        write_aligned-freed v buf1 o s ∙ ap some old,
        write_aligned-freed w buf2 o (s + 1) ∙ ap some (write_aligned-entry v buf1 o s h ∙ old),
      )
