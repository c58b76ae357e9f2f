-- ===== src/Nibbles/Append.antt =====
-- Pushing and merging append the lists of nibbles.
use native.Mathlib.Nat.{mul_comm}
use bcw_zk_evm.Common.{
  ℕ, ◌+◌, ◌*◌, ◌≤◌, ◌<◌, bit_or, ◌≡◌, sym, ap, ◌∙◌, some, none, le→leb, lt→ltb, arith, List, [],
  ◌∷◌, ◌++◌, length, length-append,
}
use bcw_zk_evm.Word.{◌<<<◌}
use bcw_zk_evm.Nibbles.{
  Nibbles, push_nibble_front, push_nibble_back, push_nibbles_front, push_nibbles_back, merge_nibble,
  merge_nibbles, nibble_append_safety_asserts, nibbles_append_safety_asserts,
}
use bcw_zk_evm.Nibbles.Value.{
  radix, value, value-append, of_list, AreNibbles, value-lt, value-singleton,
}
use bcw_zk_evm.Nibbles.Fields.{shl_lem, bit_or_over, bit_or_under}

pub Nibbles_path :
    {c d p q : ℕ}
    → c ≡ d
    → p ≡ q
    → ◌≡◌ {A = Nibbles} (record { count = c; packed = p }) (record { count = d; packed = q })
Nibbles_path h k = λ i. record { count = h i; packed = k i }

module _ (xs ys : List ℕ) (hx : AreNibbles xs) (hy : AreNibbles ys)
    (fits : length xs + length ys ≤ 64) where
  shifted : value xs <<< (length ys * 4) ≡ value xs * radix (length ys)
  shifted = shl_lem (value xs) (length xs) (length ys) (value-lt xs hx) (omega arith)

  pub over : bit_or (value xs <<< (length ys * 4)) (value ys) ≡ value (xs ++ ys)
  over =
      ap (λ t. bit_or t (value ys)) shifted
      ∙ bit_or_over (length ys) (value xs) (value ys) (value-lt ys hy)
      ∙ sym (value-append xs ys)

  under : bit_or (value ys) (value xs <<< (length ys * 4)) ≡ value (xs ++ ys)
  under =
      ap (λ t. bit_or (value ys) t) shifted
      ∙ bit_or_under (length ys) (value xs) (value ys) (value-lt ys hy)
      ∙ omega (arith, value-append xs ys)

  appended :
      ◌≡◌ {A = Nibbles}
        (record {
          count = length xs + length ys;
          packed = bit_or (value xs <<< (length ys * 4)) (value ys);
        })
        (of_list (xs ++ ys))
  unfolding of_list
  appended = Nibbles_path (sym (length-append xs ys)) over

  prepended :
      ◌≡◌ {A = Nibbles}
        (record {
          count = length ys + length xs;
          packed = bit_or (value ys) (value xs <<< (length ys * 4));
        })
        (of_list (xs ++ ys))
  unfolding of_list
  prepended = Nibbles_path (omega (arith, length-append xs ys)) under

  -- For two sequences of nibbles of at most 64 together, `merge_nibbles` succeeds and gives the first
  -- followed by the second.
  pub merge_nibbles_lem : merge_nibbles (of_list xs) (of_list ys) ≡ some (of_list (xs ++ ys))
  unfolding merge_nibbles of_list
  merge_nibbles_lem = rw (le→leb (length xs + length ys) 64 fits) (ap some appended)

  -- For two sequences of nibbles of at most 64 together, `push_nibbles_back` succeeds and gives the
  -- first followed by the second.
  pub push_nibbles_back_lem :
      push_nibbles_back (of_list xs) (of_list ys) ≡ some (of_list (xs ++ ys))
  unfolding push_nibbles_back nibbles_append_safety_asserts of_list
  push_nibbles_back_lem =
      rw (le→leb (length xs + length ys) 64 fits, mul_comm 4 (length ys)) (ap some appended)

  -- For two sequences of nibbles of at most 64 together, `push_nibbles_front` of `xs` to `ys` succeeds
  -- and gives `xs` followed by `ys`.
  pub push_nibbles_front_lem :
      push_nibbles_front (of_list ys) (of_list xs) ≡ some (of_list (xs ++ ys))
  unfolding push_nibbles_front nibbles_append_safety_asserts of_list
  push_nibbles_front_lem =
      rw (le→leb (length ys + length xs) 64 (omega arith), mul_comm 4 (length ys))
        (ap some prepended)

module _ (xs : List ℕ) (n : ℕ) (hx : AreNibbles xs) (hn : n < 16) (fits : length xs < 64) where
  nibble_appended :
      ◌≡◌ {A = Nibbles}
        (record { count = length xs + 1; packed = bit_or (value xs <<< 4) n })
        (of_list (xs ++ n ∷ []))
  nibble_appended = rw value-singleton at (appended xs (n ∷ []) hx (hn, tt) (omega arith))

  pub merge_nibble_lem : merge_nibble (of_list xs) n ≡ some (of_list (xs ++ n ∷ []))
  unfolding merge_nibble nibble_append_safety_asserts of_list
  merge_nibble_lem = rw (lt→ltb (length xs) 64 fits, lt→ltb n 16 hn) (ap some nibble_appended)

  pub push_nibble_back_lem : push_nibble_back (of_list xs) n ≡ some (of_list (xs ++ n ∷ []))
  unfolding push_nibble_back nibble_append_safety_asserts of_list
  push_nibble_back_lem = rw (lt→ltb (length xs) 64 fits, lt→ltb n 16 hn) (ap some nibble_appended)

  pub push_nibble_front_lem : push_nibble_front (of_list xs) n ≡ some (of_list (n ∷ xs))
  unfolding push_nibble_front nibble_append_safety_asserts of_list
  push_nibble_front_lem =
      rw (lt→ltb (length xs) 64 fits, lt→ltb n 16 hn, mul_comm 4 (length xs))
        (ap some (rw value-singleton at (prepended (n ∷ []) xs (hn, tt) hx (omega arith))))

-- Where two sequences have more than 64 nibbles together, `push_nibbles_back`, `push_nibbles_front`
-- and `merge_nibbles` all panic.
pub append_overflow :
    (s t : Nibbles)
    → 64 < s.count + t.count
    → (push_nibbles_back s t ≡ none) × (push_nibbles_front s t ≡ none) × (merge_nibbles s t ≡ none)
unfolding push_nibbles_back push_nibbles_front merge_nibbles nibbles_append_safety_asserts
append_overflow s t h = (ground arith, ground arith, ground arith)
