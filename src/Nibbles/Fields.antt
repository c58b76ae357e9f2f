-- ===== src/Nibbles/Fields.antt =====
-- The word operators on fields of whole nibbles, where nothing leaves the word.
use native.Mathlib.Nat.{
  mod-eq_of_lt, mul-add-div_right, mul-add-mod_self_right, div-eq_of_lt, pow-suc,
}
use bcw_zk_evm.Common.{
  ℕ, zero, suc, ◌+◌, ◌-◌, ◌*◌, ◌/◌, ◌%◌, ◌^◌, ◌≤◌, ◌<◌, bit_and, bit_or, ◌≡◌, sym, ap, ◌∙◌, some,
  arith, checked_sub, checked_sub_of_le,
}
use bcw_zk_evm.Word.{◌<<<◌, ◌>>>◌, word_not, word_mod}
use bcw_zk_evm.Word.Mask.{bit_and_mask, bit_and_complement, bit_or_high_low, bit_or_low_high}
use bcw_zk_evm.Nibbles.{create_mask_of_1s}
use bcw_zk_evm.Nibbles.Value.{radix, radix-zero, radix-suc, radix-pos, radix-add, radix-le}

two_pow_step : (k r : ℕ) → 2 ^ k ≡ r → 2 ^ suc (suc (suc (suc k))) ≡ 16 * r
two_pow_step k r h =
    omega (
      arith,
      pow-suc 2 k,
      pow-suc 2 (suc k),
      pow-suc 2 (suc (suc k)),
      pow-suc 2 (suc (suc (suc k))),
    )

pub two_pow : (n : ℕ) → 2 ^ (n * 4) ≡ radix n
two_pow zero = sym radix-zero
two_pow (suc n) =
    ap (λ t. 2 ^ t) (omega arith) ∙ two_pow_step (n * 4) (radix n) (two_pow n) ∙ sym (radix-suc n)

-- The nibbles that are sure to fit a word with room for one more: the keys have at most 64.
abbrev pub word_nibbles : ℕ
word_nibbles = 72

pub radix_word : radix word_nibbles < word_mod
unfolding radix word_mod
radix_word = omega arith

pub radix-lt-word_mod : (n : ℕ) → n ≤ word_nibbles → radix n < word_mod
radix-lt-word_mod n h = omega (arith, radix-le n word_nibbles h, radix_word)

-- A number of `L` nibbles, moved up by `n`.
pub shl_lem : (v L n : ℕ) → v < radix L → L + n ≤ word_nibbles → v <<< (n * 4) ≡ v * radix n
unfolding ◌<<<◌
shl_lem v L n h fits = ap (λ t. (v * t) % word_mod) (two_pow n) ∙ mod-eq_of_lt small
  where
    small : v * radix n < word_mod
    small = grind (arith, radix-add L n, radix-pos n, radix-lt-word_mod (L + n) fits)

pub shr_lem : (v n : ℕ) → v >>> (n * 4) ≡ v / radix n
shr_lem v n = ap (λ t. v / t) (two_pow n)

pub create_mask_of_1s_lem : (n : ℕ) → n ≤ 71 → create_mask_of_1s (n * 4) ≡ some (radix n - 1)
unfolding create_mask_of_1s
create_mask_of_1s_lem n h =
    ap (λ t. checked_sub t 1)
      (shl_lem 1 1 n (omega (arith, radix-suc 0, radix-zero)) (omega arith) ∙ omega arith)
    ∙ checked_sub_of_le (radix n) 1 (radix-pos n)

-- `m` ones above `k` nibbles select the field of those nibbles.
pub bit_and_field :
    (x m k : ℕ) → bit_and x ((radix m - 1) * radix k) ≡ (x / radix k % radix m) * radix k
bit_and_field x m k = rw (← two_pow m, ← two_pow k) (bit_and_mask (k * 4) (m * 4) x)

pub bit_and_low : (x m : ℕ) → bit_and x (radix m - 1) ≡ x % radix m
bit_and_low x m = ground (arith, bit_and_field x m 0, radix-zero)

pub bit_and-word_not :
    (x m : ℕ) → x < word_mod → m < word_mod → bit_and x (word_not m) + bit_and x m ≡ x
unfolding word_not word_mod
bit_and-word_not x m h k = bit_and_complement 320 x m h k

-- A field above `k` nibbles and one within them.
pub bit_or_over : (k q r : ℕ) → r < radix k → bit_or (q * radix k) r ≡ q * radix k + r
bit_or_over k q r = rw (← two_pow k) (bit_or_high_low (k * 4) q r)

pub bit_or_under : (k q r : ℕ) → r < radix k → bit_or r (q * radix k) ≡ r + q * radix k
bit_or_under k q r = rw (← two_pow k) (bit_or_low_high (k * 4) q r)

-- The two parts of a number cut above its low `k` nibbles.
pub div_cut : (k q r : ℕ) → r < radix k → (q * radix k + r) / radix k ≡ q
div_cut k q r h = mul-add-div_right (radix-pos k) q r ∙ omega (arith, div-eq_of_lt h)

pub mod_cut : (k q r : ℕ) → r < radix k → (q * radix k + r) % radix k ≡ r
mod_cut k q r h = mul-add-mod_self_right q (radix k) r ∙ mod-eq_of_lt h
