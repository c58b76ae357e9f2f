-- ===== src/Smt/Key/Removal.antt =====
-- Removing the first bits of a key.
use bcw_zk_evm.Common.{ℕ, ◌+◌, ◌*◌, ◌≡◌, arith}
use bcw_zk_evm.Smt.Key.{Key, level_bits, remove_key_bits}
use bcw_zk_evm.Smt.Key.Laws.{interleaved, interleaved-shift_limbs}

level_bits-whole : (n i : ℕ) → level_bits (n * 4) i ≡ n
unfolding level_bits
level_bits-whole n i = ground arith

-- Removing `4 n` bits leaves the bits of the limbs from place `n` on.
pub interleaved-remove_key_bits :
    (n m place : ℕ) (key : Key)
    → interleaved m place (remove_key_bits key (n * 4)) ≡ interleaved m (n + place) key
unfolding remove_key_bits
interleaved-remove_key_bits n m place key =
    rw (level_bits-whole n 0, level_bits-whole n 1, level_bits-whole n 2, level_bits-whole n 3)
      (interleaved-shift_limbs m n place key)
