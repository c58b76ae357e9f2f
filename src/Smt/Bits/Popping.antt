-- ===== src/Smt/Bits/Popping.antt =====
-- The loops of `common_prefix`: what they pop, and where they stop.
use native.Mathlib.Nat.{pow-suc}
use mathlib.Core.List.{append-nil, append_assoc}
use bcw_zk_evm.Common.{
  ℕ, zero, suc, ◌/◌, ◌%◌, ◌^◌, ◌<◌, ◌≤◌, Bool, true, false, ltb, ◌==◌, ==_iff, ==_refl, min, Option,
  none, some, List, [], ◌∷◌, ◌++◌, ◌≡◌, ◌≢◌, refl, ap, subst, sym, ◌∙◌, arith, ◌⊎◌, inl, inr,
  Bool-cases,
}
use bcw_zk_evm.Smt.Bits.{Bits, eq_bits, shorten, pop_until_equal, differ}
use bcw_zk_evm.Smt.Bits.Laws.{digits, to_list, bits, pop_next_bit_lem}

abbrev pub IsPrefix : List Bool → List Bool → Type 0
IsPrefix xs ys = (rest : List Bool) × (ys ≡ xs ++ rest)

-- A common beginning: without further bits, it is one of the lists; with them, they differ, and
-- come next in each list.
abbrev pub Splits : List Bool → List Bool → List Bool → Option (Bool × Bool) → Type 0
Splits xs ys prefix none = IsPrefix prefix xs × IsPrefix prefix ys × ((prefix ≡ xs) ⊎ (prefix ≡ ys))
Splits xs ys prefix (some b) =
    IsPrefix (prefix ++ b.0 ∷ []) xs × IsPrefix (prefix ++ b.1 ∷ []) ys × (differ b.0 b.1 ≡ true)

IsPrefix-append : (xs ys zs : List Bool) → IsPrefix xs ys → IsPrefix xs (ys ++ zs)
IsPrefix-append xs ys zs (rest, e) = (rest ++ zs, ap (λ l. l ++ zs) e ∙ append_assoc xs rest zs)

pub IsPrefix-trans : (xs ys zs : List Bool) → IsPrefix xs ys → IsPrefix ys zs → IsPrefix xs zs
IsPrefix-trans xs ys zs h (rest, e) = subst (IsPrefix xs) (sym e) (IsPrefix-append xs ys rest h)

IsPrefix-refl : (xs : List Bool) → IsPrefix xs xs
IsPrefix-refl xs = ([], sym (append-nil xs))

-- The first `n` bits of a sequence, or all.
abbrev pub Shortened : ℕ → ℕ → ℕ → Option Bits → Type 0
Shortened m p n o =
    (r : ℕ) × (k : ℕ) × (o ≡ some (bits k r))
    × (r < 2 ^ k)
    × IsPrefix (digits k r) (digits m p)
    × (k ≡ min m n)
    × (m ≤ n → digits k r ≡ digits m p)

unshortened : (m p n : ℕ) → m ≤ n → p < 2 ^ m → Shortened m p n (some (bits m p))
unshortened m p n h f = (p, m, refl, f, IsPrefix-refl (digits m p), omega arith, λ g. refl)

-- Popping while there are more than `n` bits leaves those.
pub shorten_lem :
    (rounds m p n : ℕ) → m < rounds → p < 2 ^ m → Shortened m p n (shorten rounds (bits m p) n)
unfolding shorten digits
shorten_lem zero m p n h f = absurd (omega arith)
shorten_lem (suc rounds) zero p n h f =
    let done : ltb n 0 ≡ false = ground arith in
    rw (done, shorten) (unshortened zero p n (omega arith) f)
shorten_lem (suc rounds) (suc m) p n h f = elim (Bool-cases (ltb n (suc m))) [
  | inr done ↦ rw (done, shorten) (unshortened (suc m) p n (ground arith) f)
  | inl more ↦
      let less : n < suc m = ground arith in
      let (r, k, e, fits, prefix, size, same) =
        shorten_lem rounds m (p / 2) n (omega arith) (omega (arith, pow-suc 2 m)) in
      rw (more, shorten, pop_next_bit_lem m p)
        (
          r,
          k,
          e,
          fits,
          IsPrefix-append (digits k r) (digits m (p / 2)) ((p % 2 == 1) ∷ []) prefix,
          omega arith,
          λ g. absurd (omega arith),
        )
]

-- Where two sequences part, with the bits popped from each.
abbrev pub Parted : List Bool → List Bool → Option (Bits × Bool × Bool) → Type 0
Parted xs ys o =
    (c : Bits) × (x : Bool) × (y : Bool) × (o ≡ some (c, x, y))
    × Splits xs ys (to_list c) (some (x, y))

Parted-equal :
    (n p q : ℕ) (x y : Bool)
    → p ≡ q
    → differ x y ≡ true
    → Parted (digits n p ++ x ∷ []) (digits n q ++ y ∷ []) (some (bits n p, x, y))
unfolding to_list
Parted-equal n p q x y e d = (
  bits n p,
  x,
  y,
  refl,
  (
    IsPrefix-refl (digits n p ++ x ∷ []),
    subst (λ v. IsPrefix (digits n p ++ y ∷ []) (digits n v ++ y ∷ [])) e
        (IsPrefix-refl (digits n p ++ y ∷ [])),
    d,
  ),
)

Parted-append :
    (xs ys us vs : List Bool) (o : Option (Bits × Bool × Bool))
    → Parted xs ys o
    → Parted (xs ++ us) (ys ++ vs) o
Parted-append xs ys us vs o (c, x, y, e, (l, r, d)) = (
  c,
  x,
  y,
  e,
  (IsPrefix-append (to_list c ++ x ∷ []) xs us l, IsPrefix-append (to_list c ++ y ∷ []) ys vs r, d),
)

-- Numbers with the same half differ in their lowest bit.
pub differ_lowest : (p q : ℕ) → p ≢ q → p / 2 ≡ q / 2 → differ (p % 2 == 1) (q % 2 == 1) ≡ true
differ_lowest p q h e = elim (Bool-cases (p % 2 == 1)) [
  | inl a ↦ elim (Bool-cases (q % 2 == 1)) [
    | inl b ↦ absurd (h (ground arith))
    | inr b ↦ rw (a, b) refl
  ]
  | inr a ↦ elim (Bool-cases (q % 2 == 1)) [
    | inl b ↦ rw (a, b) refl
    | inr b ↦ absurd (h (ground arith))
  ]
]

pub pop_until_equal_lem :
    (rounds n p q : ℕ) (x y : Bool)
    → n < rounds
    → p < 2 ^ n
    → q < 2 ^ n
    → (p ≡ q → differ x y ≡ true)
    → Parted
        (digits n p ++ x ∷ [])
        (digits n q ++ y ∷ [])
        (pop_until_equal rounds (bits n p) (bits n q) x y)
unfolding pop_until_equal digits eq_bits
pop_until_equal_lem zero n p q x y h f g d = absurd (omega arith)
pop_until_equal_lem (suc rounds) zero p q x y h f g d =
    let equal : p ≡ q = omega arith in
    rw ((==_iff p q).1 equal, pop_until_equal) (Parted-equal zero p q x y equal (d equal))
pop_until_equal_lem (suc rounds) (suc n) p q x y h f g d = elim (Bool-cases (p == q)) [
  | inl same ↦
      let equal : p ≡ q = (==_iff p q).0 same in
      rw (==_refl (suc n), same, pop_until_equal) (Parted-equal (suc n) p q x y equal (d equal))
  | inr other ↦
      let unequal : p ≢ q = ground arith in
      rw (==_refl (suc n), other, pop_until_equal, pop_next_bit_lem n p, pop_next_bit_lem n q)
        (Parted-append (digits (suc n) p) (digits (suc n) q) (x ∷ []) (y ∷ []) _ (
          pop_until_equal_lem rounds n (p / 2) (q / 2) (p % 2 == 1) (q % 2 == 1) (omega arith)
            (omega (arith, pow-suc 2 n)) (omega (arith, pow-suc 2 n)) (differ_lowest p q unequal)))
]
