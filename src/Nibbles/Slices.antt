-- ===== src/Nibbles/Slices.antt =====
-- Ranges, truncation and splitting as operations on the lists of nibbles.
use mathlib.Core.List.{append-nil}
use bcw_zk_evm.Common.{
  ℕ, ◌+◌, ◌-◌, ◌*◌, ◌/◌, ◌%◌, ◌≤◌, ◌<◌, ◌≡◌, refl, ap, ap₂, ◌∙◌, some, ◌>>=◌, checked_sub, bit_and,
  arith, List, [], ◌∷◌, ◌++◌, length, length-append, All-append, take, drop, take-append-drop,
  All-take, All-drop, length-take,
}
use bcw_zk_evm.Nibbles.{
  Nibbles, create_mask_of_1s, get_nibble_range, truncate_n_nibbles_front_mut,
  truncate_n_nibbles_back_mut, pop_next_nibble_front, pop_nibbles_front,
  get_min_truncate_amount_to_prevent_over_truncating,
}
use native.Mathlib.Nat.{mod-eq_of_lt}
use bcw_zk_evm.Word.{◌<<<◌, word_not}
use bcw_zk_evm.Nibbles.Whole.{split_at_idx, split_at_idx_prefix, split_at_idx_postfix}
use bcw_zk_evm.Nibbles.Value.{radix, value, value-append, of_list, AreNibbles, value-lt}
use bcw_zk_evm.Nibbles.Fields.{div_cut, mod_cut}
use bcw_zk_evm.Nibbles.Access.{get_nibble_lem}
use bcw_zk_evm.Nibbles.Append.{Nibbles_path}
use bcw_zk_evm.Nibbles.Split.{
  range_field, truncate_front_field, truncate_back_field, split_fields, split_postfix_field,
  split_prefix_field,
}

module _ (xs ys : List ℕ) (hx : AreNibbles xs) (hy : AreNibbles ys)
    (fits : length (xs ++ ys) ≤ 64) where
  counted : length (xs ++ ys) ≡ length xs + length ys
  counted = length-append xs ys

  after : length (xs ++ ys) - length xs ≡ length ys
  after = omega (arith, counted)

  before : length (xs ++ ys) - length ys ≡ length xs
  before = omega (arith, counted)

  bounded : value (xs ++ ys) < radix (length (xs ++ ys))
  bounded = value-lt (xs ++ ys) (All-append (λ n. n < 16) xs ys hx hy)

  high : value (xs ++ ys) / radix (length ys) ≡ value xs
  high = rw value-append (div_cut (length ys) (value xs) (value ys) (value-lt ys hy))

  low : value (xs ++ ys) % radix (length ys) ≡ value ys
  low = rw value-append (mod_cut (length ys) (value xs) (value ys) (value-lt ys hy))

  front_part :
      ◌≡◌ {A = Nibbles}
        (record {
          count = length (xs ++ ys) - length ys;
          packed = value (xs ++ ys) / radix (length ys);
        })
        (of_list xs)
  unfolding of_list
  front_part = Nibbles_path before high

  back_part :
      ◌≡◌ {A = Nibbles}
        (record {
          count = length (xs ++ ys) - length xs;
          packed = value (xs ++ ys) % radix (length (xs ++ ys) - length xs);
        })
        (of_list ys)
  unfolding of_list
  back_part = Nibbles_path after (ap (λ t. value (xs ++ ys) % radix t) after ∙ low)

  pub truncate_front_append :
      truncate_n_nibbles_front_mut (of_list (xs ++ ys)) (length xs) ≡ some (of_list ys)
  unfolding of_list
  truncate_front_append =
      truncate_front_field (of_list (xs ++ ys)) fits bounded (length xs) (omega (arith, counted))
      ∙ ap some back_part

  pub truncate_back_append :
      truncate_n_nibbles_back_mut (of_list (xs ++ ys)) (length ys) ≡ some (of_list xs)
  unfolding of_list
  truncate_back_append =
      truncate_back_field (of_list (xs ++ ys)) fits bounded (length ys) (omega (arith, counted))
      ∙ ap some front_part

  pub split_at_append :
      split_at_idx (of_list (xs ++ ys)) (length xs) ≡ some (of_list xs, of_list ys)
  unfolding of_list
  split_at_append =
      split_fields (of_list (xs ++ ys)) fits bounded (length xs) (omega (arith, counted))
      ∙ ap₂ (λ a b. some (a, b))
          (Nibbles_path refl (ap (λ t. value (xs ++ ys) / radix t) after ∙ high)) back_part

  pub split_postfix_append :
      split_at_idx_postfix (of_list (xs ++ ys)) (length xs) ≡ some (of_list ys)
  unfolding of_list
  split_postfix_append =
      split_postfix_field (of_list (xs ++ ys)) fits bounded (length xs) (omega (arith, counted))
      ∙ ap some back_part

  prefix_part :
      value (xs ++ ys) / radix (length (xs ++ ys) - length xs) % radix (length xs) ≡ value xs
  prefix_part =
      ap (λ t. value (xs ++ ys) / radix t % radix (length xs)) after
      ∙ ap (λ t. t % radix (length xs)) high
      ∙ mod-eq_of_lt (value-lt xs hx)

  pub range_append : get_nibble_range (of_list (xs ++ ys)) 0 (length xs) ≡ some (of_list xs)
  unfolding of_list
  range_append =
      range_field (of_list (xs ++ ys)) 0 (length xs) (omega arith) (omega (arith, counted)) fits
      ∙ ap some (
          Nibbles_path (omega arith) (
            ap (λ t. value (xs ++ ys) / radix (length (xs ++ ys) - length xs) % radix t)
              (omega arith)
            ∙ prefix_part))

  pub split_prefix_append : split_at_idx_prefix (of_list (xs ++ ys)) (length xs) ≡ some (of_list xs)
  unfolding of_list
  split_prefix_append =
      split_prefix_field (of_list (xs ++ ys)) fits bounded (length xs) (omega (arith, counted))
      ∙ ap some (Nibbles_path refl prefix_part)

-- The same by the number of nibbles.
module _ (n : ℕ) (xs : List ℕ) (hx : AreNibbles xs) (fits : length xs ≤ 64)
    (h : n ≤ length xs) where
  parts : take n xs ++ drop n xs ≡ xs
  parts = take-append-drop n xs

  taken : length (take n xs) ≡ n
  taken = omega (arith, length-take n xs)

  taken_nibbles : AreNibbles (take n xs)
  taken_nibbles = All-take (λ m. m < 16) n xs hx

  dropped_nibbles : AreNibbles (drop n xs)
  dropped_nibbles = All-drop (λ m. m < 16) n xs hx

  parts_fit : length (take n xs ++ drop n xs) ≤ 64
  parts_fit = rw parts fits

  pub range_take : get_nibble_range (of_list xs) 0 n ≡ some (of_list (take n xs))
  range_take =
      rw (parts, taken) at
        (range_append (take n xs) (drop n xs) taken_nibbles dropped_nibbles parts_fit)

  -- Truncating the front of a sequence of at most 64 nibbles by a number up to its length drops that
  -- many nibbles.
  pub truncate_front_drop : truncate_n_nibbles_front_mut (of_list xs) n ≡ some (of_list (drop n xs))
  truncate_front_drop =
      rw (parts, taken) at
        (truncate_front_append (take n xs) (drop n xs) taken_nibbles dropped_nibbles parts_fit)

  -- Of a sequence of at most 64 nibbles, split at an index up to its length, `split_at_idx` gives the
  -- nibbles before the index and those from it on.
  pub split_at-take-drop :
      split_at_idx (of_list xs) n ≡ some (of_list (take n xs), of_list (drop n xs))
  split_at-take-drop =
      rw (parts, taken) at
        (split_at_append (take n xs) (drop n xs) taken_nibbles dropped_nibbles parts_fit)

  pub split_postfix_drop : split_at_idx_postfix (of_list xs) n ≡ some (of_list (drop n xs))
  split_postfix_drop =
      rw (parts, taken) at
        (split_postfix_append (take n xs) (drop n xs) taken_nibbles dropped_nibbles parts_fit)

  pub split_prefix_take : split_at_idx_prefix (of_list xs) n ≡ some (of_list (take n xs))
  split_prefix_take =
      rw (parts, taken) at
        (split_prefix_append (take n xs) (drop n xs) taken_nibbles dropped_nibbles parts_fit)

-- Of three sequences of nibbles in a row, at most 64 together, `get_nibble_range` between the ends of
-- the first and of the second succeeds and is the second.
pub range_middle :
    (xs ys zs : List ℕ)
    → AreNibbles xs
    → AreNibbles ys
    → AreNibbles zs
    → length (xs ++ ys ++ zs) ≤ 64
    → get_nibble_range (of_list (xs ++ ys ++ zs)) (length xs) (length xs + length ys)
      ≡ some (of_list ys)
unfolding of_list
range_middle xs ys zs hx hy hz fits =
    range_field (of_list (xs ++ ys ++ zs)) (length xs) (length xs + length ys) (omega arith)
      (omega (arith, all, front)) fits
    ∙ ap some (Nibbles_path (omega arith) field)
  where
    all : length (xs ++ ys ++ zs) ≡ length (xs ++ ys) + length zs
    all = length-append (xs ++ ys) zs

    front : length (xs ++ ys) ≡ length xs + length ys
    front = length-append xs ys

    field :
        value (xs ++ ys ++ zs)
          / radix (length (xs ++ ys ++ zs) - (length xs + length ys))
          % radix (length xs + length ys - length xs)
        ≡ value ys
    field =
        ap₂ (λ a b. value (xs ++ ys ++ zs) / radix a % radix b) (omega (arith, all, front))
          (omega arith)
        ∙ ap (λ t. t % radix (length ys))
            (high (xs ++ ys) zs (All-append (λ n. n < 16) xs ys hx hy) hz fits)
        ∙ low xs ys hx hy (omega (arith, all, front))

capped :
    (s : Nibbles) (n : ℕ)
    → s.count ≤ n
    → truncate_n_nibbles_front_mut s n ≡ truncate_n_nibbles_front_mut s s.count
unfolding truncate_n_nibbles_front_mut
capped s n h =
    ap
      (λ m. checked_sub s.count m >>= λ kept. create_mask_of_1s (m * 4) >>= λ mask.
        some (record { count = kept; packed = bit_and s.packed (word_not (mask <<< (kept * 4))) }))
      same
  where
    same :
        get_min_truncate_amount_to_prevent_over_truncating s n
        ≡ get_min_truncate_amount_to_prevent_over_truncating s s.count
    same = unfold get_min_truncate_amount_to_prevent_over_truncating in ground arith

-- Truncating at least all the nibbles leaves none.
pub truncate_front_all :
    (xs : List ℕ) (n : ℕ)
    → AreNibbles xs
    → length xs ≤ 64
    → length xs ≤ n
    → truncate_n_nibbles_front_mut (of_list xs) n ≡ some (of_list [])
truncate_front_all xs n hx fits h =
    capped (of_list xs) n (unfold of_list in h)
    ∙ (unfold of_list in rw append-nil at (truncate_front_append xs [] hx tt (rw append-nil fits)))

-- Popping the front of a sequence of between one and 64 nibbles gives the first nibble and leaves the
-- rest.
pub pop_front_cons :
    (x : ℕ) (xs : List ℕ)
    → AreNibbles (x ∷ xs)
    → length (x ∷ xs) ≤ 64
    → pop_next_nibble_front (of_list (x ∷ xs)) ≡ some (x, of_list xs)
unfolding pop_next_nibble_front
pop_front_cons x xs h fits =
    rw (get_nibble_lem [] x xs h fits, truncate_front_append (x ∷ []) xs (h.0, tt) h.1 fits)

-- Of a sequence of at most 64 nibbles, popping a number of them up to its length gives those nibbles
-- and leaves the rest.
pub pop_front-take-drop :
    (n : ℕ) (xs : List ℕ)
    → AreNibbles xs
    → length xs ≤ 64
    → n ≤ length xs
    → pop_nibbles_front (of_list xs) n ≡ some (of_list (take n xs), of_list (drop n xs))
unfolding pop_nibbles_front
pop_front-take-drop n xs hx fits h =
    rw (range_take n xs hx fits h, truncate_front_drop n xs hx fits h)
