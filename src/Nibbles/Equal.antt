-- ===== src/Nibbles/Equal.antt =====
-- Equal numbers of equal length are equal lists, and where two lists part.
use bcw_zk_evm.Common.{
  ℕ, ◌+◌, ◌*◌, ◌/◌, ◌%◌, ◌≤◌, ◌<◌, ◌≡◌, ◌≢◌, refl, sym, ap, ap₂, ◌∙◌, arith, List, [], ◌∷◌, length,
  take, drop, true, false, ◌==◌, ==_refl, inl, inr, Bool-cases, ==_iff,
}
use bcw_zk_evm.Nibbles.Value.{radix, value, value-cons, value-lt, AreNibbles}
use bcw_zk_evm.Nibbles.Fields.{div_cut, mod_cut}
use bcw_zk_evm.Nibbles.Compare.{agree, common}

pub value-injective :
    (xs ys : List ℕ)
    → AreNibbles xs
    → AreNibbles ys
    → length xs ≡ length ys
    → value xs ≡ value ys
    → xs ≡ ys
value-injective [] [] hx hy e v = refl
value-injective [] (y ∷ ys) hx hy e v = absurd (omega arith)
value-injective (x ∷ xs) [] hx hy e v = absurd (omega arith)
value-injective (x ∷ xs) (y ∷ ys) hx hy e v =
    ap₂ ◌∷◌ first (value-injective xs ys hx.1 hy.1 same rest)
  where
    same : length xs ≡ length ys
    same = omega arith

    r : ℕ
    r = radix (length xs)

    whole : x * r + value xs ≡ y * r + value ys
    whole =
        sym (value-cons x xs) ∙ v ∙ value-cons y ys ∙ ap (λ t. y * radix t + value ys) (sym same)

    ys-lt : value ys < r
    ys-lt = rw (sym same) at (value-lt ys hy.1)

    first : x ≡ y
    first =
        sym (div_cut (length xs) x (value xs) (value-lt xs hx.1))
        ∙ ap (λ t. t / r) whole
        ∙ div_cut (length xs) y (value ys) ys-lt

    rest : value xs ≡ value ys
    rest =
        sym (mod_cut (length xs) x (value xs) (value-lt xs hx.1))
        ∙ ap (λ t. t % r) whole
        ∙ mod_cut (length xs) y (value ys) ys-lt

pub agree_refl : (xs : List ℕ) → agree xs xs ≡ true
unfolding agree
agree_refl [] = refl
agree_refl (x ∷ xs) = rw (==_refl x) (agree_refl xs)

pub agree-eq : (xs ys : List ℕ) → length xs ≡ length ys → agree xs ys ≡ true → xs ≡ ys
unfolding agree
agree-eq [] [] e h = refl
agree-eq [] (y ∷ ys) e h = absurd (omega arith)
agree-eq (x ∷ xs) [] e h = absurd (omega arith)
agree-eq (x ∷ xs) (y ∷ ys) e h = ground (arith, agree-eq xs ys)

pub common-le : (xs ys : List ℕ) → (common xs ys ≤ length xs) × (common xs ys ≤ length ys)
unfolding common
common-le [] ys = (omega arith, omega arith)
common-le (x ∷ xs) [] = (omega arith, omega arith)
common-le (x ∷ xs) (y ∷ ys) = ground (arith, common-le xs ys)

-- Both lists start with the common part.
pub take-common : (xs ys : List ℕ) → take (common xs ys) ys ≡ take (common xs ys) xs
unfolding common
take-common [] ys = refl
take-common (x ∷ xs) [] = refl
take-common (x ∷ xs) (y ∷ ys) = elim (Bool-cases (x == y)) [
  | inl e ↦ rw e (ap₂ ◌∷◌ (sym ((==_iff x y).0 e)) (take-common xs ys))
  | inr n ↦ rw n
]

-- Where two lists part, both go on, and differently.
pub record Parting (xs ys : List ℕ) : Type 0 where
  pub here : ℕ
  pub there : ℕ
  pub here_rest : List ℕ
  pub there_rest : List ℕ
  pub left : drop (common xs ys) xs ≡ here ∷ here_rest
  pub right : drop (common xs ys) ys ≡ there ∷ there_rest
  pub differ : here ≢ there

pub parting : (xs ys : List ℕ) → agree xs ys ≡ false → Parting xs ys
unfolding agree common
parting [] ys h = absurd (cc)
parting (x ∷ xs) [] h = absurd (cc)
parting (x ∷ xs) (y ∷ ys) h = elim (Bool-cases (x == y)) [
  | inl e ↦ step e (parting xs ys (rw e at h))
  | inr n ↦ record {
    here = x;
    there = y;
    here_rest = xs;
    there_rest = ys;
    left = rw n;
    right = rw n;
    differ = λ p. ne p n;
  }
]
  where
    step : (x == y) ≡ true → Parting xs ys → Parting (x ∷ xs) (y ∷ ys)
    step e p = record {
      here = p.here;
      there = p.there;
      here_rest = p.here_rest;
      there_rest = p.there_rest;
      left = rw e p.left;
      right = rw e p.right;
      differ = p.differ;
    }

    ne : x ≡ y → (x == y) ≡ false → ⊥
    ne p n = ground arith
