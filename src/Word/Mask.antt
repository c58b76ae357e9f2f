-- ===== src/Word/Mask.antt =====
-- Masks, complements and disjoint fields as arithmetic, at every width.
use Prim.Native.Nat.{bit_and-bitwise, bit_or-bitwise}
use native.Mathlib.Nat.{
  pow-suc, one-le-pow, mul-add-mod_self_right, mod-eq_of_lt, mod-lt, div-add-mod',
  div-div-eq-div-mul,
}
use bcw_zk_evm.Common.{
  ℕ, zero, suc, ◌+◌, ◌-◌, ◌*◌, ◌/◌, ◌%◌, ◌^◌, ◌≤◌, ◌<◌, bit_and, bit_or, ◌≡◌, refl, sym, ap, ◌∙◌,
  arith,
}
use bcw_zk_evm.Word.Digits.{bit_or_step, bit_and_step}

bit_or-zero_below : (n a : ℕ) → a ≤ n → bit_or a 0 ≡ a
bit_or-zero_below n zero h = refl
bit_or-zero_below zero (suc a) h = absurd (omega arith)
bit_or-zero_below (suc n) (suc a) h =
    omega (arith, bit_or_step (suc a) 0, bit_or-zero_below n (suc a / 2) (omega arith))

pub bit_or-zero : (a : ℕ) → bit_or a 0 ≡ a
bit_or-zero a = bit_or-zero_below a a (omega arith)

pub zero-bit_or : (b : ℕ) → bit_or 0 b ≡ b
zero-bit_or b = bit_or-bitwise 0 b

zero-bit_and : (b : ℕ) → bit_and 0 b ≡ 0
zero-bit_and b = bit_and-bitwise 0 b

bit_and-zero_below : (n a : ℕ) → a ≤ n → bit_and a 0 ≡ 0
bit_and-zero_below n zero h = refl
bit_and-zero_below zero (suc a) h = absurd (omega arith)
bit_and-zero_below (suc n) (suc a) h =
    omega (arith, bit_and_step (suc a) 0, bit_and-zero_below n (suc a / 2) (omega arith))

pub bit_and-zero : (a : ℕ) → bit_and a 0 ≡ 0
bit_and-zero a = bit_and-zero_below a a (omega arith)

pub double_pow : (q k : ℕ) → q * 2 ^ suc k ≡ 2 * (q * 2 ^ k)
double_pow q k = omega (arith, ap (λ (t : ℕ). q * t) (pow-suc 2 k))

pub pow_add : (k n : ℕ) → 2 ^ (k + n) ≡ 2 ^ n * 2 ^ k
pow_add zero n = ap (λ t. 2 ^ t) {x = 0 + n} {y = n} (omega arith) ∙ omega arith
pow_add (suc k) n =
    ap (λ t. 2 ^ t) {x = suc k + n} {y = suc (k + n)} (omega arith)
    ∙ omega (
      arith,
      pow-suc 2 (k + n),
      pow_add k n,
      pow-suc 2 k,
      ap (λ (t : ℕ). 2 ^ n * t) (pow-suc 2 k),
    )

-- A field above `k` bits and one within them: their union is their sum.
pub bit_or_high_low : (k q r : ℕ) → r < 2 ^ k → bit_or (q * 2 ^ k) r ≡ q * 2 ^ k + r
bit_or_high_low zero q r h = ground (arith, bit_or-zero q)
bit_or_high_low (suc k) q r h = ground (
  arith,
  bit_or_step (q * 2 ^ suc k) r,
  double_pow q k,
  pow-suc 2 k,
  bit_or_high_low k q (r / 2) (omega (arith, pow-suc 2 k)),
)

pub bit_or_low_high : (k q r : ℕ) → r < 2 ^ k → bit_or r (q * 2 ^ k) ≡ r + q * 2 ^ k
bit_or_low_high zero q r h = ground (arith, zero-bit_or q)
bit_or_low_high (suc k) q r h = ground (
  arith,
  bit_or_step r (q * 2 ^ suc k),
  double_pow q k,
  pow-suc 2 k,
  bit_or_low_high k q (r / 2) (omega (arith, pow-suc 2 k)),
)

-- The remainder by twice `p`, from the remainder of the half.
pub mod_double : (x p : ℕ) → 0 < p → x % (2 * p) ≡ 2 * (x / 2 % p) + x % 2
mod_double x p h =
    let q = x / 2 / p in
    let r = 2 * (x / 2 % p) + x % 2 in
    let split : x ≡ q * (2 * p) + r = omega (arith, div-add-mod' (x / 2) p) in
    let small : r < 2 * p = omega (arith, mod-lt (x / 2) h) in
    ap (λ (t : ℕ). t % (2 * p)) split ∙ mul-add-mod_self_right q (2 * p) r ∙ mod-eq_of_lt small

pub div_double : (x k : ℕ) → x / 2 ^ suc k ≡ x / 2 / 2 ^ k
div_double x k = sym (div-div-eq-div-mul x 2 (2 ^ k) ∙ ap (λ t. x / t) (omega (arith, pow-suc 2 k)))

-- A mask of `m` ones that starts at bit `k` selects the field of those bits.
bit_and_low_mask : (m x : ℕ) → bit_and x (2 ^ m - 1) ≡ x % 2 ^ m
bit_and_low_mask zero x = omega (arith, bit_and-zero x)
bit_and_low_mask (suc m) x = ground (
  arith,
  bit_and_step x (2 ^ suc m - 1),
  pow-suc 2 m,
  one-le-pow m 2,
  mod_double x (2 ^ m),
  bit_and_low_mask m (x / 2),
)

pub bit_and_mask : (k m x : ℕ) → bit_and x ((2 ^ m - 1) * 2 ^ k) ≡ (x / 2 ^ k % 2 ^ m) * 2 ^ k
bit_and_mask zero m x = ground (arith, bit_and_low_mask m x)
bit_and_mask (suc k) m x = ground (
  arith,
  bit_and_step x ((2 ^ m - 1) * 2 ^ suc k),
  double_pow (2 ^ m - 1) k,
  double_pow (x / 2 ^ suc k % 2 ^ m) k,
  div_double x k,
  bit_and_mask k m (x / 2),
)

-- The complement within `w` bits keeps what the mask drops.
pub bit_and_complement :
    (w x m : ℕ) → x < 2 ^ w → m < 2 ^ w → bit_and x (2 ^ w - 1 - m) + bit_and x m ≡ x
bit_and_complement zero zero m h k = omega (arith, zero-bit_and m, zero-bit_and (1 - 1 - m))
bit_and_complement zero (suc x) m h k = absurd (omega arith)
bit_and_complement (suc w) x m h k = ground (
  arith,
  bit_and_step x (2 ^ suc w - 1 - m),
  bit_and_step x m,
  pow-suc 2 w,
  one-le-pow w 2,
  bit_and_complement w (x / 2) (m / 2),
)
