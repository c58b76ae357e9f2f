-- ===== src/Nibbles/Value.antt =====
-- The number that a list of nibbles, the first one highest, stands for, and `Nibbles` from a list.
use native.Mathlib.Nat.{mul_assoc}
use bcw_zk_evm.Common.{
  ℕ, zero, suc, ◌+◌, ◌-◌, ◌*◌, ◌≤◌, ◌<◌, List, [], ◌∷◌, ◌++◌, ◌≡◌, refl, sym, ap, ◌∙◌, arith,
  length, length-append, All,
}
use bcw_zk_evm.Nibbles.{Nibbles}

unfoldable pub radix : ℕ → ℕ
radix zero = 1
radix (suc n) = 16 * radix n

pub radix-zero : radix 0 ≡ 1
unfolding radix
radix-zero = refl

pub radix-suc : (n : ℕ) → radix (suc n) ≡ 16 * radix n
unfolding radix
radix-suc n = refl

pub radix-pos : (n : ℕ) → 0 < radix n
radix-pos zero = omega (arith, radix-zero)
radix-pos (suc n) = omega (arith, radix-suc n, radix-pos n)

pub radix-add : (m n : ℕ) → radix (m + n) ≡ radix m * radix n
radix-add zero n = ground (arith, radix-zero)
radix-add (suc m) n =
    ap radix (omega arith)
    ∙ radix-suc (m + n)
    ∙ ap (λ t. 16 * t) (radix-add m n)
    ∙ sym (mul_assoc 16 (radix m) (radix n))
    ∙ ap (λ t. t * radix n) (sym (radix-suc m))

pub radix-le : (m n : ℕ) → m ≤ n → radix m ≤ radix n
radix-le m n h =
    let split : radix n ≡ radix m * radix (n - m) = ap radix (omega arith) ∙ radix-add m (n - m) in
    grind (arith, split, radix-pos (n - m))

-- Every item is a nibble.
abbrev pub AreNibbles : List ℕ → Type 0
AreNibbles = All (λ n. n < 16)

pub value : List ℕ → ℕ
value [] = 0
value (x ∷ xs) = x * radix (length xs) + value xs

pub value-nil : value [] ≡ 0
unfolding value
value-nil = refl

pub value-cons : (x : ℕ) (xs : List ℕ) → value (x ∷ xs) ≡ x * radix (length xs) + value xs
unfolding value
value-cons x xs = refl

pub value-lt : (xs : List ℕ) → AreNibbles xs → value xs < radix (length xs)
unfolding value
value-lt [] h = radix-pos 0
value-lt (x ∷ xs) h = grind (arith, radix-suc (length xs), value-lt xs h.1)

pub value-append : (xs ys : List ℕ) → value (xs ++ ys) ≡ value xs * radix (length ys) + value ys
unfolding value
value-append [] ys = omega arith
value-append (x ∷ xs) ys =
    let high : radix (length (xs ++ ys)) ≡ radix (length xs) * radix (length ys) =
      ap radix (length-append xs ys) ∙ radix-add (length xs) (length ys) in
    omega (arith, ap (λ (t : ℕ). x * t) high, value-append xs ys)

pub value-singleton : (n : ℕ) → value (n ∷ []) ≡ n
unfolding value
value-singleton n = ground (arith, radix-zero)

-- The sequence of these nibbles.
unfoldable pub of_list : List ℕ → Nibbles
of_list xs = record { count = length xs; packed = value xs }
