-- ===== src/Nibbles/Compare.antt =====
-- The loops that compare two sequences, on the lists of nibbles.
use mathlib.Core.List.{append_assoc}
use native.Mathlib.Nat.{mul-div_cancel, zero-add}
use bcw_zk_evm.Common.{
  ℕ, zero, suc, ◌+◌, ◌-◌, ◌*◌, ◌/◌, ◌%◌, ◌≤◌, ◌<◌, bit_and, ◌≡◌, ◌≢◌, refl, sym, ap, ◌∙◌, some,
  arith, List, [], ◌∷◌, ◌++◌, length, length-append, take, All-take, length-take, min,
  if◌then◌else◌, Bool, true, false, ◌==◌, ==_refl, ==_ne, inl, inr, Bool-cases, ==_iff,
}
use bcw_zk_evm.Word.{◌<<<◌, ◌>>>◌}
use bcw_zk_evm.Nibbles.{get_nibble}
use bcw_zk_evm.Nibbles.Whole.{
  identical_from, nibbles_are_identical_up_to_smallest_count, find_loop,
  find_nibble_idx_that_differs_between_nibbles_equal_lengths,
  find_nibble_idx_that_differs_between_nibbles_different_lengths,
}
use bcw_zk_evm.Nibbles.Value.{radix, radix-zero, radix-suc, radix-pos, value, of_list, AreNibbles}
use bcw_zk_evm.Nibbles.Fields.{bit_and_field, shl_lem}
use bcw_zk_evm.Nibbles.Access.{get_nibble_lem, digit_lem}
use bcw_zk_evm.Nibbles.Slices.{range_take}

-- Do the lists agree us far us both reach?
unfoldable pub agree : List ℕ → List ℕ → Bool
agree [] ys = true
agree (x ∷ xs) [] = true
agree (x ∷ xs) (y ∷ ys) = if x == y then agree xs ys else false

-- How many leading nibbles they share.
unfoldable pub common : List ℕ → List ℕ → ℕ
common [] ys = 0
common (x ∷ xs) [] = 0
common (x ∷ xs) (y ∷ ys) = if x == y then suc (common xs ys) else 0

-- Taking one more item into the part already passed.
pub passed : (us : List ℕ) (x : ℕ) (xs : List ℕ) → (us ++ x ∷ []) ++ xs ≡ us ++ x ∷ xs
passed us x xs = append_assoc us (x ∷ []) xs

length-passed : (us : List ℕ) (x : ℕ) → length (us ++ x ∷ []) ≡ length us + 1
length-passed us x = length-append us (x ∷ [])

identical_from_lem :
    (xs ys : List ℕ) (left : ℕ) (us vs : List ℕ)
    → AreNibbles xs
    → AreNibbles ys
    → left ≡ min (length xs) (length ys)
    → length (us ++ xs) ≤ 64
    → length (vs ++ ys) ≤ 64
    → length vs ≡ length us
    → identical_from (of_list (us ++ xs)) (of_list (vs ++ ys)) left (length us) ≡ some (agree xs ys)
unfolding agree identical_from
identical_from_lem [] ys zero us vs hx hy m fx fy e = refl
identical_from_lem [] ys (suc left) us vs hx hy m fx fy e = absurd (omega arith)
identical_from_lem (x ∷ xs) [] zero us vs hx hy m fx fy e = refl
identical_from_lem (x ∷ xs) [] (suc left) us vs hx hy m fx fy e = absurd (omega arith)
identical_from_lem (x ∷ xs) (y ∷ ys) zero us vs hx hy m fx fy e = absurd (omega arith)
identical_from_lem (x ∷ xs) (y ∷ ys) (suc left) us vs hx hy m fx fy e =
    let ih =
      identical_from_lem xs ys left (us ++ x ∷ []) (vs ++ y ∷ []) hx.1 hy.1 (omega arith)
        (rw (passed us x xs) fx) (rw (passed vs y ys) fy)
        (omega (arith, length-passed us x, length-passed vs y)) in
    rw (get_nibble_lem us x xs hx fx, second)
      (ap (λ t. if x == y then t else some false)
          (rw (passed us x xs, passed vs y ys, length-passed us x) at ih)
        ∙ push (x == y))
  where
    second : get_nibble (of_list (vs ++ y ∷ ys)) (length us) ≡ some y
    second = rw e at (get_nibble_lem vs y ys hy fy)

    push :
        (b : Bool)
        → (if b then some (agree xs ys) else some false) ≡ some (if b then agree xs ys else false)
    push true = refl
    push false = refl

-- For two sequences of at most 64 nibbles each, `nibbles_are_identical_up_to_smallest_count` succeeds,
-- and says whether the two agree up to the length of the shorter.
pub nibbles_are_identical_up_to_smallest_count_lem :
    (xs ys : List ℕ)
    → AreNibbles xs
    → AreNibbles ys
    → length xs ≤ 64
    → length ys ≤ 64
    → nibbles_are_identical_up_to_smallest_count (of_list xs) (of_list ys) ≡ some (agree xs ys)
unfolding nibbles_are_identical_up_to_smallest_count of_list
nibbles_are_identical_up_to_smallest_count_lem xs ys hx hy fx fy =
    identical_from_lem xs ys (min (length xs) (length ys)) [] [] hx hy refl fx fy refl

pub masked :
    (us : List ℕ) (x : ℕ) (xs : List ℕ)
    → AreNibbles (x ∷ xs)
    → bit_and (value (us ++ x ∷ xs)) (15 * radix (length xs)) ≡ x * radix (length xs)
masked us x xs h =
    ap (λ t. bit_and (value (us ++ x ∷ xs)) (t * radix (length xs)))
      (omega (arith, radix-suc 0, radix-zero))
    ∙ bit_and_field (value (us ++ x ∷ xs)) 1 (length xs)
    ∙ ap (λ t. t * radix (length xs))
        (ap (λ t. value (us ++ x ∷ xs) / radix (length xs) % t)
            (omega (arith, radix-suc 0, radix-zero))
          ∙ digit_lem us x xs h)

cancel_factor : (x y r : ℕ) → 0 < r → x * r ≡ y * r → x ≡ y
cancel_factor x y r h e = sym (mul-div_cancel x h) ∙ ap (λ t. t / r) e ∙ mul-div_cancel y h

pred_suc : (n : ℕ) → suc n - 1 ≡ n
pred_suc n = omega arith

next_mask : (n : ℕ) → 0 < n → (15 * radix n) >>> 4 ≡ 15 * radix (n - 1)
next_mask zero h = absurd (omega arith)
next_mask (suc n) h = omega (arith, radix-suc n, ap (λ t. 15 * radix t) (pred_suc n))

find_loop_lem :
    (xs ys us vs : List ℕ) (mask : ℕ)
    → AreNibbles xs
    → AreNibbles ys
    → length xs ≡ length ys
    → (0 < length xs → mask ≡ 15 * radix (length xs - 1))
    → find_loop (value (us ++ xs)) (value (vs ++ ys)) (length xs) (length us) mask
      ≡ length us + common xs ys
unfolding find_loop common
find_loop_lem [] ys us vs mask hx hy e m = omega arith
find_loop_lem (x ∷ xs) [] us vs mask hx hy e m = absurd (omega arith)
find_loop_lem (x ∷ xs) (y ∷ ys) us vs mask hx hy e m =
    let rest =
      find_loop_lem xs ys (us ++ x ∷ []) (vs ++ y ∷ []) ((15 * radix (length xs)) >>> 4) hx.1 hy.1
        (omega arith) (next_mask (length xs)) in
    rw
      (
        m (omega arith) ∙ ap (λ t. 15 * radix t) (pred_suc (length xs)),
        masked us x xs hx,
        other,
        cancel,
      )
      (finish (rw (passed us x xs, passed vs y ys, length-passed us x) at rest) (x == y))
  where
    same : length ys ≡ length xs
    same = omega arith

    other : bit_and (value (vs ++ y ∷ ys)) (15 * radix (length xs)) ≡ y * radix (length xs)
    other = rw same at (masked vs y ys hy)

    ne : (x == y) ≡ false → x ≢ y
    ne h p = ground arith

    cancel : (x * radix (length xs) == y * radix (length xs)) ≡ (x == y)
    cancel = elim (Bool-cases (x == y)) [
      | inl equal ↦ rw equal (rw ((==_iff x y).0 equal) (==_refl _))
      | inr differ ↦ rw differ (
          ==_ne _ _
            (λ p. ne differ (cancel_factor x y (radix (length xs)) (radix-pos (length xs)) p)))
    ]

    finish :
        find_loop
            (value (us ++ x ∷ xs))
            (value (vs ++ y ∷ ys))
            (length xs)
            (length us + 1)
            ((15 * radix (length xs)) >>> 4)
          ≡ length us + 1 + common xs ys
        → (b : Bool)
        → (if b
            then find_loop
                (value (us ++ x ∷ xs))
                (value (vs ++ y ∷ ys))
                (length xs)
                (length us + 1)
                ((15 * radix (length xs)) >>> 4)
            else length us)
          ≡ length us + (if b then suc (common xs ys) else 0)
    finish ih true = ih ∙ omega arith
    finish ih false = omega arith

pub find_nibble_idx_equal_lem :
    (xs ys : List ℕ)
    → AreNibbles xs
    → AreNibbles ys
    → length xs ≡ length ys
    → length xs ≤ 64
    → find_nibble_idx_that_differs_between_nibbles_equal_lengths (of_list xs) (of_list ys)
      ≡ some (common xs ys)
unfolding find_nibble_idx_that_differs_between_nibbles_equal_lengths of_list common
find_nibble_idx_equal_lem [] [] hx hy e fits = refl
find_nibble_idx_equal_lem [] (y ∷ ys) hx hy e fits = absurd (omega arith)
find_nibble_idx_equal_lem (x ∷ xs) [] hx hy e fits = absurd (omega arith)
find_nibble_idx_equal_lem (x ∷ xs) (y ∷ ys) hx hy e fits =
    rw (same, ==_refl (suc (length xs)), ==_ne (suc (length xs)) 0 (omega arith))
      (ap some
        (find_loop_lem (x ∷ xs) (y ∷ ys) [] [] first_mask hx hy e (λ _. masked_first) ∙ zero-add _))
  where
    same : length ys ≡ length xs
    same = omega arith

    first_mask : ℕ
    first_mask = 15 <<< ((suc (length xs) - 1) * 4)

    masked_first : first_mask ≡ 15 * radix (suc (length xs) - 1)
    masked_first =
        shl_lem 15 1 (suc (length xs) - 1) (omega (arith, radix-suc 0, radix-zero)) (omega arith)

common-take :
    (xs ys : List ℕ) (m : ℕ)
    → min (length xs) (length ys) ≤ m
    → common (take m xs) (take m ys) ≡ common xs ys
unfolding common
common-take [] ys zero h = refl
common-take [] ys (suc m) h = refl
common-take (x ∷ xs) [] zero h = refl
common-take (x ∷ xs) [] (suc m) h = refl
common-take (x ∷ xs) (y ∷ ys) zero h = absurd (omega arith)
common-take (x ∷ xs) (y ∷ ys) (suc m) h =
    ap (λ t. if x == y then suc t else 0) (common-take xs ys m (omega arith))

-- Of two sequences of at most 64 nibbles each, the index at which they first differ, up to the shorter
-- length, is the length of their longest common prefix, and finding it succeeds.
pub find_nibble_idx_different_lem :
    (xs ys : List ℕ)
    → AreNibbles xs
    → AreNibbles ys
    → length xs ≤ 64
    → length ys ≤ 64
    → find_nibble_idx_that_differs_between_nibbles_different_lengths (of_list xs) (of_list ys)
      ≡ some (common xs ys)
unfolding find_nibble_idx_that_differs_between_nibbles_different_lengths of_list
find_nibble_idx_different_lem xs ys hx hy fx fy =
    let m = min (length xs) (length ys) in
    rw (range_take m xs hx fx (omega arith), range_take m ys hy fy (omega arith))
      (find_nibble_idx_equal_lem (take m xs) (take m ys) (All-take (λ n. n < 16) m xs hx)
          (All-take (λ n. n < 16) m ys hy) (omega (arith, length-take m xs, length-take m ys))
          (omega (arith, length-take m xs))
        ∙ ap some (common-take xs ys m (omega arith)))
