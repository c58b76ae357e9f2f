-- ===== src/Kernel/Cost/Laws.antt =====
-- `u256_to_trimmed_be_bytes`: how long the bytes are, and that they spell the word.
use native.Mathlib.Nat.{
  pow-suc, one-le-pow, div-add-mod', mod-lt, mul-le-mul_right, mul-add-mod_self_right, mod-eq_of_lt,
  pow-le-pow_right,
}
use bcw_zk_evm.Common.{
  ℕ, zero, suc, ◌+◌, ◌*◌, ◌/◌, ◌%◌, ◌^◌, ◌≤◌, ◌<◌, List, [], ◌∷◌, length, ◌≡◌, refl, ap, sym, ◌∙◌,
  arith, Bool-cases, inl, inr, ◌==◌, ==_iff, false,
}
use bcw_zk_evm.Word.Mask.{pow_add}
use bcw_zk_evm.Kernel.Cost.{bits, bits_below, bytes_below, u256_to_trimmed_be_bytes}

pub length-bytes_below : (n x : ℕ) → length (bytes_below n x) ≡ n
unfolding bytes_below
length-bytes_below zero x = refl
length-bytes_below (suc n) x = ap suc (length-bytes_below n x)

bits_below_le : (n x : ℕ) → bits_below n x ≤ n
unfolding bits_below
bits_below_le zero x = omega arith
bits_below_le (suc n) x = ground (arith, bits_below_le n (x / 2))

-- A word takes at most 32 bytes.
pub length-trimmed : (x : ℕ) → length (u256_to_trimmed_be_bytes x) ≤ 32
unfolding u256_to_trimmed_be_bytes bits
length-trimmed x =
    omega (arith, length-bytes_below ((bits_below 256 x + 7) / 8) x, bits_below_le 256 x)

-- The number that bytes spell, the highest first.
unfoldable pub be_value : List ℕ → ℕ
be_value [] = 0
be_value (b ∷ bytes) = b * 2 ^ (8 * length bytes) + be_value bytes

-- One more byte of the remainder.
mod_byte : (x a : ℕ) → 0 < a → x % (a * 256) ≡ (x / a % 256) * a + x % a
mod_byte x a h =
    let q = x / a / 256 in
    let d = x / a % 256 in
    let quotient : x / a ≡ q * 256 + d = omega arith in
    let split : x ≡ q * (a * 256) + (d * a + x % a) =
      omega (arith, div-add-mod' x a, ap (λ (t : ℕ). t * a) quotient) in
    let small : d * a + x % a < a * 256 =
      omega (arith, mod-lt x h, mul-le-mul_right {m = d} {n = 255} a (omega arith)) in
    ap (λ (t : ℕ). t % (a * 256)) split
    ∙ mul-add-mod_self_right q (a * 256) (d * a + x % a)
    ∙ mod-eq_of_lt small

byte_power : (n : ℕ) → 2 ^ (8 * suc n) ≡ 2 ^ (8 * n) * 256
byte_power n = ap (λ t. 2 ^ t) {x = 8 * suc n} {y = 8 + 8 * n} (omega arith) ∙ pow_add 8 (8 * n)

-- The lowest bytes of a number spell its remainder.
pub be_value-bytes_below : (n x : ℕ) → be_value (bytes_below n x) ≡ x % 2 ^ (8 * n)
unfolding be_value bytes_below
be_value-bytes_below zero x = omega arith
be_value-bytes_below (suc n) x =
    rw (byte_power n, length-bytes_below n x, be_value-bytes_below n x)
      (sym (mod_byte x (2 ^ (8 * n)) (omega (arith, one-le-pow (8 * n) 2))))

plus_one : (k : ℕ) → k + 1 ≡ suc k
plus_one k = omega arith

bits_below_bound : (n x : ℕ) → x < 2 ^ n → x < 2 ^ bits_below n x
unfolding bits_below
bits_below_bound zero x h = h
bits_below_bound (suc n) x h = elim (Bool-cases (x == 0)) [
  | inl e ↦ rw e (ground arith)
  | inr e ↦ rw e (
      omega (
        arith,
        pow-suc 2 n,
        bits_below_bound n (x / 2) (omega (arith, pow-suc 2 n)),
        pow-suc 2 (bits_below n (x / 2)),
        ap (λ t. 2 ^ t) (plus_one (bits_below n (x / 2))),
      ))
]

bits_below_zero : (n x : ℕ) → x ≡ 0 → bits_below n x ≡ 0
unfolding bits_below
bits_below_zero zero x h = refl
bits_below_zero (suc n) x h = rw h refl

bits_below_least : (n x : ℕ) → x < 2 ^ n → 0 < x → 2 ^ bits_below n x ≤ 2 * x
unfolding bits_below
bits_below_least zero x h k = absurd (omega arith)
bits_below_least (suc n) x h k =
    let set : (x == 0) ≡ false = ground arith in
    elim (Bool-cases (x / 2 == 0)) [
      | inl last ↦ rw (set, bits_below_zero n (x / 2) ((==_iff (x / 2) 0).0 last)) (omega arith)
      | inr more ↦
          let half : 0 < x / 2 = ground arith in
          rw set (
            omega (
              arith,
              pow-suc 2 n,
              pow-suc 2 (bits_below n (x / 2)),
              ap (λ t. 2 ^ t) (plus_one (bits_below n (x / 2))),
              bits_below_least n (x / 2) (omega (arith, pow-suc 2 n)) half,
            ))
    ]

-- `bits` is what the documentation of `U256` says: the least number of bits that hold the word.
bits_least : (x : ℕ) → x < 2 ^ 256 → (x < 2 ^ bits x) × (0 < x → 2 ^ bits x ≤ 2 * x)
unfolding bits
bits_least x h = (bits_below_bound 256 x h, bits_below_least 256 x h)

-- The trimmed bytes of a word of 256 bits spell the word.
pub be_value-u256_to_trimmed_be_bytes :
    (x : ℕ) → x < 2 ^ 256 → be_value (u256_to_trimmed_be_bytes x) ≡ x
unfolding u256_to_trimmed_be_bytes bits
be_value-u256_to_trimmed_be_bytes x h =
    let k = bits_below 256 x in
    let n = (k + 7) / 8 in
    let room : 2 ^ k ≤ 2 ^ (8 * n) =
      pow-le-pow_right {n = 2} (omega arith) {i = k} {j = 8 * n} (omega arith) in
    be_value-bytes_below n x ∙ mod-eq_of_lt (omega (arith, bits_below_bound 256 x h))
