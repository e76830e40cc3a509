-- ===== src/Crash.antt =====
-- Offsets that stand for a crash of a server at a point (src/crash.cpp, src/headers/crash.hpp). A
-- `long` is its 64 bits, of which the lowest byte is the first in memory.
use chained_block_storage.Base.{
  ℕ, ◌+◌, ◌*◌, ◌/◌, ◌%◌, ◌^◌, ◌<◌, ◌≡◌, refl, ◌&&◌, Option, none, some, List, [], ◌∷◌, ◌==◌, arith,
  if◌then◌else◌,
}

-- The five bytes of `indicator`.
abbrev indicator : ℕ
indicator = b'C' + 2 ^ 8 * b'R' + 2 ^ 16 * b'A' + 2 ^ 24 * b'S' + 2 ^ 32 * b'H'

-- `sscanf` gives the last number of an address of four, if it reads them.
module _ (sscanf : List ℕ → Option ℕ) where
  unfoldable pub get_server_num : List ℕ → ℕ
  get_server_num [] = 0
  get_server_num (b ∷ ip) = elim (sscanf (b ∷ ip)) [ none ↦ 0 | some n ↦ n % 2 ^ 8 ]

  unfoldable pub construct : List ℕ → ℕ → ℕ
  unfolding get_server_num
  construct ip crash_point =
      indicator + 2 ^ 40 * get_server_num ip + 2 ^ 48 * (crash_point % 2 ^ 16)

  -- `check` on a server with the address `my_ip`: the offset, or `none` for the failed assertion.
  unfoldable pub check : List ℕ → ℕ → ℕ → Option ℕ
  unfolding get_server_num
  check my_ip offset crash_point =
      let here =
        (get_server_num my_ip == offset / 2 ^ 40 % 2 ^ 8)
        && (crash_point == offset / 2 ^ 48 % 2 ^ 16) in
      if offset % 2 ^ 40 == indicator then (if here then none else some 0) else some offset

  server_num_bounded : (ip : List ℕ) → get_server_num ip < 2 ^ 8
  unfolding get_server_num
  server_num_bounded [] = omega arith
  server_num_bounded (b ∷ ip) = ground arith

  -- A crash code crashes the server that it names at the point that it names, and is the offset 0 for the
  -- others.
  pub check-construct :
      (my_ip ip : List ℕ) (p q : ℕ)
      → p < 2 ^ 16
      → check my_ip (construct ip p) q
        ≡ (if (get_server_num my_ip == get_server_num ip) && (q == p) then none else some 0)
  unfolding check construct
  check-construct my_ip ip p q h =
      let code = indicator + 2 ^ 40 * get_server_num ip + 2 ^ 48 * (p % 2 ^ 16) in
      let bounded = server_num_bounded ip in
      let word : code % 2 ^ 40 ≡ indicator = omega (arith, bounded) in
      let server : code / 2 ^ 40 % 2 ^ 8 ≡ get_server_num ip = omega (arith, bounded) in
      let point : code / 2 ^ 48 % 2 ^ 16 ≡ p = omega (arith, bounded, h) in
      rw (word, server, point) refl

  -- The offset of a block is no crash code.
  pub check_aligned : (my_ip : List ℕ) (o q : ℕ) → o % 4096 ≡ 0 → check my_ip o q ≡ some o
  unfolding check
  check_aligned my_ip o q h = ground (arith, h)
