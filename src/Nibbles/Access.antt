-- ===== src/Nibbles/Access.antt =====
-- `get_nibble` reads the digit of a valid sequence.
use native.Mathlib.Nat.{div-div-eq-div-mul}
use bcw_zk_evm.Common.{
  ℕ, suc, ◌+◌, ◌-◌, ◌*◌, ◌/◌, ◌%◌, ◌^◌, ◌≤◌, ◌<◌, bit_and, ◌≡◌, ap, ◌∙◌, some, checked_sub_of_le,
  arith, List, ◌∷◌, ◌++◌, length, length-append, true, false, Bool-cases, inl, inr, ◌==◌, lt→ltb,
  if◌then◌else◌,
}
use bcw_zk_evm.Word.{◌>>>◌, byte}
use bcw_zk_evm.Word.Mask.{bit_and_mask}
use bcw_zk_evm.Nibbles.{Nibbles, get_nibble, is_even}
use bcw_zk_evm.Nibbles.Value.{
  radix, radix-suc, value, value-cons, value-append, of_list, AreNibbles, value-lt,
}
use bcw_zk_evm.Nibbles.Fields.{two_pow, div_cut}

pub is_even_lem : (n : ℕ) → is_even n ≡ (n % 2 == 0)
unfolding is_even
is_even_lem n = ap (λ t. t == 0) (bit_and_mask 0 1 n ∙ omega arith)

byte_lem : (x i : ℕ) → i < 40 → byte x i ≡ some (x / radix (i * 2) % 256)
unfolding byte
byte_lem x i h =
    rw (lt→ltb i 40 h)
      (ap (λ t. some (x / t % 256)) (ap (λ t. 2 ^ t) (omega arith) ∙ two_pow (i * 2)))

low_half : (b : ℕ) → bit_and b 0x0f ≡ b % 16
low_half b = omega (arith, bit_and_mask 0 4 b)

high_half : (b : ℕ) → bit_and b 0xf0 >>> 4 ≡ b / 16 % 16
high_half b = omega (arith, bit_and_mask 4 4 b)

-- The nibble in half a byte.
half : ℕ → ℕ → ℕ
half b n = if is_even n then bit_and b 0x0f else bit_and b 0xf0 >>> 4

half_lem : (x n : ℕ) → half (x / radix (n / 2 * 2) % 256) n ≡ x / radix n % 16
unfolding half
half_lem x n = elim (Bool-cases (n % 2 == 0)) [
  | inl even ↦
      rw (is_even_lem n, even) (low_half _ ∙ omega (arith, ap (λ t. x / radix t) (n_even even)))
  | inr odd ↦
      rw (is_even_lem n, odd)
        (high_half _
          ∙ omega (arith, ap (λ t. x / t) (n_odd odd), div-div-eq-div-mul x (radix (n / 2 * 2)) 16))
]
  where
    n_even : (n % 2 == 0) ≡ true → n / 2 * 2 ≡ n
    n_even h = ground arith

    n_odd : (n % 2 == 0) ≡ false → radix n ≡ radix (n / 2 * 2) * 16
    n_odd h = ap radix (ground arith) ∙ radix-suc (n / 2 * 2) ∙ omega arith

pub get_nibble_digit :
    (s : Nibbles) (i : ℕ)
    → i < s.count
    → s.count ≤ 64
    → get_nibble s i ≡ some (s.packed / radix (s.count - i - 1) % 16)
unfolding get_nibble half
get_nibble_digit s i h fits =
    rw
      (
        checked_sub_of_le s.count i (omega arith),
        checked_sub_of_le (s.count - i) 1 (omega arith),
        byte_lem s.packed ((s.count - i - 1) / 2) (omega arith),
      )
      (ap some (half_lem s.packed (s.count - i - 1)))

pub digit_lem :
    (xs : List ℕ) (x : ℕ) (ys : List ℕ)
    → AreNibbles (x ∷ ys)
    → value (xs ++ x ∷ ys) / radix (length ys) % 16 ≡ x
digit_lem xs x ys h = omega (
  arith,
  ap (λ t. t / radix (length ys)) split,
  div_cut (length ys) (value xs * 16 + x) (value ys) (value-lt ys h.1),
)
  where
    split : value (xs ++ x ∷ ys) ≡ (value xs * 16 + x) * radix (length ys) + value ys
    split = omega (
      arith,
      value-append xs (x ∷ ys),
      value-cons x ys,
      ap (λ t. value xs * t) (radix-suc (length ys)),
    )

-- In a sequence of at most 64 nibbles, `get_nibble` at the number of the nibbles before `x` succeeds
-- and is `x`; the nibbles before it are not asked to be below 16.
pub get_nibble_lem :
    (xs : List ℕ) (x : ℕ) (ys : List ℕ)
    → AreNibbles (x ∷ ys)
    → length (xs ++ x ∷ ys) ≤ 64
    → get_nibble (of_list (xs ++ x ∷ ys)) (length xs) ≡ some x
unfolding of_list
get_nibble_lem xs x ys h fits =
    get_nibble_digit (of_list (xs ++ x ∷ ys)) (length xs) (omega (arith, counted)) fits
    ∙ ap some (
        ap (λ t. value (xs ++ x ∷ ys) / radix t % 16) (omega (arith, counted))
        ∙ digit_lem xs x ys h)
  where
    counted : length (xs ++ x ∷ ys) ≡ length xs + suc (length ys)
    counted = length-append xs (x ∷ ys)
