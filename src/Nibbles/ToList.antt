-- ===== src/Nibbles/ToList.antt =====
-- The list of the nibbles of a valid sequence, which stands for it.
use native.Mathlib.Nat.{div-lt_iff_lt-mul, div-add-mod', mod-lt}
use bcw_zk_evm.Common.{
  ℕ, zero, suc, ◌+◌, ◌*◌, ◌/◌, ◌%◌, ◌≤◌, ◌<◌, ◌≡◌, refl, ap, ◌∙◌, List, [], ◌∷◌, length, arith,
}
use bcw_zk_evm.Nibbles.{Nibbles}
use bcw_zk_evm.Nibbles.Value.{
  radix, radix-zero, radix-suc, radix-pos, value, value-nil, value-cons, value-lt, of_list,
  AreNibbles,
}
use bcw_zk_evm.Nibbles.Append.{Nibbles_path}

-- At most 64 nibbles, and no bit of `packed` beyond them.
pub record IsValid (s : Nibbles) : Type 0 where
  pub fits : s.count ≤ 64
  pub bounded : s.packed < radix s.count

pub digits_of : ℕ → ℕ → List ℕ
digits_of zero p = []
digits_of (suc n) p = p / radix n ∷ digits_of n (p % radix n)

pub length-digits_of : (n p : ℕ) → length (digits_of n p) ≡ n
unfolding digits_of
length-digits_of zero p = refl
length-digits_of (suc n) p = ap suc (length-digits_of n (p % radix n))

pub digits_of-AreNibbles : (n p : ℕ) → p < radix n → AreNibbles (digits_of n p)
unfolding digits_of
digits_of-AreNibbles zero p h = tt
digits_of-AreNibbles (suc n) p h = (
  (div-lt_iff_lt-mul (radix-pos n)).1 (omega (arith, radix-suc n)),
  digits_of-AreNibbles n (p % radix n) (mod-lt p (radix-pos n)),
)

pub value-digits_of : (n p : ℕ) → p < radix n → value (digits_of n p) ≡ p
unfolding digits_of
value-digits_of zero p h = value-nil ∙ omega (arith, radix-zero)
value-digits_of (suc n) p h =
    value-cons (p / radix n) (digits_of n (p % radix n))
    ∙ ap (λ m. p / radix n * radix m + value (digits_of n (p % radix n)))
        (length-digits_of n (p % radix n))
    ∙ ap (λ m. p / radix n * radix n + m) (value-digits_of n (p % radix n) (mod-lt p (radix-pos n)))
    ∙ div-add-mod' p (radix n)

pub to_list : Nibbles → List ℕ
to_list s = digits_of s.count s.packed

pub length-to_list : (s : Nibbles) → length (to_list s) ≡ s.count
unfolding to_list
length-to_list s = length-digits_of s.count s.packed

pub to_list-AreNibbles : (s : Nibbles) → s.packed < radix s.count → AreNibbles (to_list s)
unfolding to_list
to_list-AreNibbles s h = digits_of-AreNibbles s.count s.packed h

pub of_list-to_list : (s : Nibbles) → s.packed < radix s.count → of_list (to_list s) ≡ s
unfolding of_list to_list
of_list-to_list s h =
    Nibbles_path (length-digits_of s.count s.packed) (value-digits_of s.count s.packed h)

pub of_list-IsValid : (xs : List ℕ) → AreNibbles xs → length xs ≤ 64 → IsValid (of_list xs)
unfolding of_list
of_list-IsValid xs hx fits = record { fits = fits; bounded = value-lt xs hx }
