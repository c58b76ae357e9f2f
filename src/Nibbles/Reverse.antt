-- ===== src/Nibbles/Reverse.antt =====
-- `reverse` of `mpt_trie/src/nibbles.rs`, and popping from the back, which reverses.
use mathlib.Core.List.{append-nil, reverse-cons, reverse-reverse}
use native.Mathlib.Nat.{mul-div_cancel}
use bcw_zk_evm.Common.{
  ℕ, suc, ◌+◌, ◌-◌, ◌*◌, ◌≤◌, ◌<◌, bit_and, bit_or, ◌≡◌, refl, sym, ap, subst, ◌∙◌, some, arith,
  List, [], ◌∷◌, ◌++◌, reverse, length, length-append, All-append, checked_sub_of_le,
}
use bcw_zk_evm.Word.{◌<<<◌, ◌>>>◌}
use bcw_zk_evm.Nibbles.{get_nibble_range}
use bcw_zk_evm.Nibbles.Whole.{reverse_loop, reverse_nibbles, pop_nibbles_back}
use bcw_zk_evm.Nibbles.Value.{
  radix, radix-suc, radix-zero, radix-pos, value, value-nil, value-singleton, of_list, AreNibbles,
}
use bcw_zk_evm.Nibbles.Fields.{shl_lem, shr_lem}
use bcw_zk_evm.Nibbles.Append.{Nibbles_path, over}
use bcw_zk_evm.Nibbles.Compare.{masked, passed}
use bcw_zk_evm.Nibbles.Slices.{range_middle, truncate_back_append}

length-reverse : (xs : List ℕ) → length (reverse xs) ≡ length xs
length-reverse [] = refl
length-reverse (x ∷ xs) =
    ap (λ l. length l) (reverse-cons x xs)
    ∙ omega (arith, length-append (reverse xs) (x ∷ []), length-reverse xs)

reverse-AreNibbles : (xs : List ℕ) → AreNibbles xs → AreNibbles (reverse xs)
reverse-AreNibbles [] h = tt
reverse-AreNibbles (x ∷ xs) h =
    rw (reverse-cons x xs)
      (All-append (λ n. n < 16) (reverse xs) (x ∷ []) (reverse-AreNibbles xs h.1) (h.0, tt))

taken_nibble :
    (us : List ℕ) (x : ℕ) (xs : List ℕ)
    → AreNibbles (x ∷ xs)
    → bit_and (value (us ++ x ∷ xs)) (15 * radix (length xs)) >>> (length xs * 4) ≡ x
taken_nibble us x xs h =
    ap (λ t. t >>> (length xs * 4)) (masked us x xs h)
    ∙ shr_lem (x * radix (length xs)) (length xs)
    ∙ mul-div_cancel x (radix-pos (length xs))

-- The mask of the next round.
next_mask : (n : ℕ) → n ≤ 64 → (15 * radix n) <<< 4 ≡ 15 * radix (suc n)
unfolding radix
next_mask n h =
    shl_lem (15 * radix n) (suc n) 1 (omega (arith, radix-suc n, radix-pos n)) (omega arith)
    ∙ omega (arith, radix-suc n, radix-suc 0, radix-zero)

pushed :
    (rs : List ℕ) (x : ℕ)
    → AreNibbles rs
    → x < 16
    → length rs < 64
    → bit_or (value rs <<< 4) x ≡ value (rs ++ x ∷ [])
pushed rs x h k fits = rw value-singleton at (over rs (x ∷ []) h (k, tt) (omega arith))

reverse_loop_lem :
    (ws done rs : List ℕ) (p : ℕ)
    → p ≡ value (reverse ws ++ done)
    → AreNibbles ws
    → AreNibbles done
    → AreNibbles rs
    → length ws + length done ≤ 64
    → length rs + length ws ≤ 64
    → reverse_loop p (length ws) (length done) (15 * radix (length done)) (value rs)
      ≡ value (rs ++ ws)
unfolding reverse_loop
reverse_loop_lem [] done rs p e hw hd hr fits room = ap (λ l. value l) (sym (append-nil rs))
reverse_loop_lem (x ∷ ws) done rs p e hw hd hr fits room =
    (λ k. reverse_loop p (length ws) (index k) (next_mask (length done) (omega arith) k) (acc k))
    ∙ reverse_loop_lem ws (x ∷ done) (rs ++ x ∷ []) p moved hw.1 (hw.0, hd)
        (All-append (λ n. n < 16) rs (x ∷ []) hr (hw.0, tt)) (omega arith)
        (omega (arith, length-append rs (x ∷ [])))
    ∙ ap (λ l. value l) (passed rs x ws)
  where
    moved : p ≡ value (reverse ws ++ x ∷ done)
    moved =
        e ∙ ap (λ l. value l) (ap (λ l. l ++ done) (reverse-cons x ws) ∙ passed (reverse ws) x done)

    index : length done + 1 ≡ suc (length done)
    index = omega arith

    acc :
        bit_or (value rs <<< 4) (bit_and p (15 * radix (length done)) >>> (length done * 4))
        ≡ value (rs ++ x ∷ [])
    acc =
        ap (λ n. bit_or (value rs <<< 4) n)
          (ap (λ t. bit_and t (15 * radix (length done)) >>> (length done * 4)) moved
            ∙ taken_nibble (reverse ws) x done (hw.0, hd))
        ∙ pushed rs x hr hw.0 (omega arith)

-- Of a sequence of at most 64 nibbles, `reverse` gives the nibbles in reverse order.
pub reverse_nibbles_lem :
    (xs : List ℕ)
    → AreNibbles xs
    → length xs ≤ 64
    → reverse_nibbles (of_list xs) ≡ of_list (reverse xs)
unfolding reverse_nibbles of_list
reverse_nibbles_lem xs hx fits = Nibbles_path (sym (length-reverse xs)) packed
  where
    mask : 15 ≡ 15 * radix 0
    mask = omega (arith, radix-zero)

    counted : length xs ≡ length (reverse xs)
    counted = sym (length-reverse xs)

    blank : 0 ≡ value []
    blank = sym value-nil

    packed : reverse_loop (value xs) (length xs) 0 15 0 ≡ value (reverse xs)
    packed =
        (λ k. reverse_loop (value xs) (counted k) 0 (mask k) (blank k))
        ∙ reverse_loop_lem (reverse xs) [] [] (value xs)
            (ap (λ l. value l) (sym (append-nil (reverse (reverse xs)) ∙ reverse-reverse xs)))
            (reverse-AreNibbles xs hx) tt tt (omega (arith, length-reverse xs))
            (omega (arith, length-reverse xs))

-- Of two sequences of nibbles in a row, at most 64 together, popping as many nibbles from the back as
-- the second has gives the second reversed and leaves the first.
pub pop_nibbles_back_lem :
    (xs ys : List ℕ)
    → AreNibbles xs
    → AreNibbles ys
    → length (xs ++ ys) ≤ 64
    → pop_nibbles_back (of_list (xs ++ ys)) (length ys) ≡ some (of_list (reverse ys), of_list xs)
unfolding pop_nibbles_back
pop_nibbles_back_lem xs ys hx hy fits =
    let start : (of_list (xs ++ ys)).count - length ys ≡ length xs =
      unfold of_list in omega (arith, length-append xs ys) in
    rw
      (
        checked_sub_of_le (of_list (xs ++ ys)).count (length ys) (omega (arith, ended)),
        start,
        ranged,
        truncate_back_append xs ys hx hy fits,
        reverse_nibbles_lem ys hy (omega (arith, length-append xs ys)),
      )
      refl
  where
    ended : (of_list (xs ++ ys)).count ≡ length xs + length ys
    ended = unfold of_list in length-append xs ys

    ranged :
        get_nibble_range (of_list (xs ++ ys)) (length xs) (of_list (xs ++ ys)).count
        ≡ some (of_list ys)
    ranged =
        subst (λ c. get_nibble_range (of_list (xs ++ ys)) (length xs) c ≡ some (of_list ys))
          (sym ended) (rw append-nil at (range_middle xs ys [] hx hy tt (rw append-nil fits)))
