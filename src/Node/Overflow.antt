-- ===== src/Node/Overflow.antt =====
-- `RelayWriteAck` keeps the number of the last commit as an `int`.
use chained_block_storage.Base.{
  ℕ, zero, suc, ◌+◌, ◌-◌, ◌^◌, ◌≤◌, ◌<◌, ◌≡◌, refl, ap, ◌∙◌, false, arith, ◌==◌,
}
use chained_block_storage.Tables.Int.{negsuc, to_int}
use chained_block_storage.Node.{Storage, Node, add_one, as_uint64}
use chained_block_storage.Node.Handlers.{replies, waits, relay_write_ack, commit_sent}

to_int_large : (s : ℕ) → 2 ^ 31 ≤ s → s < 2 ^ 32 → to_int s ≡ negsuc (2 ^ 32 - 1 - s)
unfolding to_int
to_int_large s h k = ground arith

after_negative :
    (m s : ℕ) → s < 2 ^ 32 → m < 2 ^ 31 → (as_uint64 (add_one (negsuc m)) == s + 1) ≡ false
unfolding as_uint64 add_one
after_negative zero s h k = ground arith
after_negative (suc m) s h k = ground arith

module _ {V : Type 0} (storage : Storage V) where
  answered :
      (n n' : Node V) (s : ℕ)
      → relay_write_ack storage n s ≡ (n', replies tt)
      → n'.commit_seq ≡ to_int s
  unfolding relay_write_ack commit_sent
  answered n n' s h = ground arith

  -- Once the commit of a write with a number from 2^31 up to 2^32 is answered, the acknowledgement of
  -- the next number waits for ever.
  pub relay_write_ack-relay_write_ack :
      (n n' : Node V) (s : ℕ)
      → 2 ^ 31 ≤ s
      → s < 2 ^ 32
      → relay_write_ack storage n s ≡ (n', replies tt)
      → relay_write_ack storage n' (s + 1) ≡ (n', waits)
  unfolding relay_write_ack
  relay_write_ack-relay_write_ack n n' s low high h =
      let stuck : (as_uint64 (add_one n'.commit_seq) == s + 1) ≡ false =
        ap (λ z. as_uint64 (add_one z) == s + 1) (answered n n' s h ∙ to_int_large s low high)
        ∙ after_negative (2 ^ 32 - 1 - s) s high (omega arith) in
      rw stuck refl
