-- ===== src/Nibbles/Split.antt =====
-- Ranges, truncation and splitting take the lists of nibbles apart.
use native.Mathlib.Nat.{mul-div_cancel, div-add-mod', div-lt_iff_lt-mul, mod-eq_of_lt}
use bcw_zk_evm.Common.{
  ℕ, ◌+◌, ◌-◌, ◌*◌, ◌/◌, ◌%◌, ◌≤◌, ◌<◌, bit_and, ◌≡◌, refl, sym, ap, ◌∙◌, some, le→leb,
  checked_sub_of_le, arith,
}
use bcw_zk_evm.Word.{◌<<<◌, ◌>>>◌, word_not, word_mod}
use bcw_zk_evm.Nibbles.{
  Nibbles, get_nibble_range, truncate_n_nibbles_front_mut, truncate_n_nibbles_back_mut,
  get_min_truncate_amount_to_prevent_over_truncating,
}
use bcw_zk_evm.Nibbles.Whole.{split_at_idx, split_at_idx_prefix, split_at_idx_postfix}
use bcw_zk_evm.Nibbles.Value.{radix, radix-pos, radix-add}
use bcw_zk_evm.Nibbles.Fields.{
  shl_lem, shr_lem, create_mask_of_1s_lem, bit_and_field, bit_and_low, bit_and-word_not,
  radix-lt-word_mod,
}
use bcw_zk_evm.Nibbles.Append.{Nibbles_path}

-- The mask of `n` nibbles, moved up by `m`.
mask_shl : (n m : ℕ) → n + m ≤ 64 → (radix n - 1) <<< (m * 4) ≡ (radix n - 1) * radix m
mask_shl n m h = shl_lem (radix n - 1) n m (omega (arith, radix-pos n)) (omega arith)

-- The masked field, moved down.
field_lem :
    (x n m : ℕ)
    → n + m ≤ 64
    → bit_and x ((radix n - 1) <<< (m * 4)) >>> (m * 4) ≡ x / radix m % radix n
field_lem x n m h =
    shr_lem _ m
    ∙ ap (λ t. bit_and x t / radix m) (mask_shl n m h)
    ∙ ap (λ t. t / radix m) (bit_and_field x n m)
    ∙ mul-div_cancel (x / radix m % radix n) (radix-pos m)

-- The field of `n` nibbles above `m`, as `get_nibble_range` and `split_at_idx_prefix` read it.
pub range_field :
    (s : Nibbles) (a b : ℕ)
    → a ≤ b
    → b ≤ s.count
    → s.count ≤ 64
    → get_nibble_range s a b
      ≡ some (record { count = b - a; packed = s.packed / radix (s.count - b) % radix (b - a) })
unfolding get_nibble_range
range_field s a b h k fits =
    rw
      (
        checked_sub_of_le b a h,
        checked_sub_of_le s.count b k,
        create_mask_of_1s_lem (b - a) (omega arith),
      )
      (ap some (Nibbles_path refl (field_lem s.packed (b - a) (s.count - b) (omega arith))))

module _ (s : Nibbles) (fits : s.count ≤ 64) (bounded : s.packed < radix s.count) where
  packed-lt-word_mod : s.packed < word_mod
  packed-lt-word_mod = omega (arith, radix-lt-word_mod s.count (omega arith))

  -- The low `kept` nibbles are what the complement of the high mask keeps.
  keep_low :
      (n kept : ℕ)
      → n + kept ≡ s.count
      → bit_and s.packed (word_not ((radix n - 1) <<< (kept * 4))) ≡ s.packed % radix kept
  keep_low n kept e =
      ap (λ t. bit_and s.packed (word_not t)) (mask_shl n kept (omega arith))
      ∙ omega (arith, kept_or_dropped, dropped, div-add-mod' s.packed (radix kept))
    where
      whole : radix s.count ≡ radix n * radix kept
      whole = ap radix (sym e) ∙ radix-add n kept

      mask : ℕ
      mask = (radix n - 1) * radix kept

      mask_fits : mask < word_mod
      mask_fits =
          grind (arith, whole, radix-pos n, radix-pos kept, radix-lt-word_mod s.count (omega arith))

      kept_or_dropped : bit_and s.packed (word_not mask) + bit_and s.packed mask ≡ s.packed
      kept_or_dropped = bit_and-word_not s.packed mask packed-lt-word_mod mask_fits

      all_high : s.packed / radix kept < radix n
      all_high = (div-lt_iff_lt-mul (radix-pos kept)).1 (omega (arith, whole))

      dropped : bit_and s.packed mask ≡ s.packed / radix kept * radix kept
      dropped = bit_and_field s.packed n kept ∙ ap (λ t. t * radix kept) (mod-eq_of_lt all_high)

  -- The high nibbles are what the complement of the low mask keeps.
  keep_high :
      (n : ℕ) → n ≤ 64 → bit_and s.packed (word_not (radix n - 1)) >>> (n * 4) ≡ s.packed / radix n
  keep_high n h =
      shr_lem _ n ∙ ap (λ t. t / radix n) kept ∙ mul-div_cancel (s.packed / radix n) (radix-pos n)
    where
      kept : bit_and s.packed (word_not (radix n - 1)) ≡ s.packed / radix n * radix n
      kept = omega (
        arith,
        bit_and-word_not s.packed (radix n - 1) packed-lt-word_mod
            (omega (arith, radix-lt-word_mod n (omega arith))),
        bit_and_low s.packed n,
        div-add-mod' s.packed (radix n),
      )

  pub truncate_front_field :
      (n : ℕ)
      → n ≤ s.count
      → truncate_n_nibbles_front_mut s n
        ≡ some (record { count = s.count - n; packed = s.packed % radix (s.count - n) })
  unfolding truncate_n_nibbles_front_mut get_min_truncate_amount_to_prevent_over_truncating
  truncate_front_field n h =
      rw (le→leb n s.count h, checked_sub_of_le s.count n h, create_mask_of_1s_lem n (omega arith))
        (ap some (Nibbles_path refl (keep_low n (s.count - n) (omega arith))))

  pub truncate_back_field :
      (n : ℕ)
      → n ≤ s.count
      → truncate_n_nibbles_back_mut s n
        ≡ some (record { count = s.count - n; packed = s.packed / radix n })
  unfolding truncate_n_nibbles_back_mut get_min_truncate_amount_to_prevent_over_truncating
  truncate_back_field n h =
      rw (le→leb n s.count h, create_mask_of_1s_lem n (omega arith), checked_sub_of_le s.count n h)
        (ap some (Nibbles_path refl (keep_high n (omega arith))))

  pub split_fields :
      (i : ℕ)
      → i ≤ s.count
      → split_at_idx s i
        ≡ some (
          record { count = i; packed = s.packed / radix (s.count - i) },
          record { count = s.count - i; packed = s.packed % radix (s.count - i) },
        )
  unfolding split_at_idx
  split_fields i h = rw (
    checked_sub_of_le s.count i h,
    create_mask_of_1s_lem (s.count - i) (omega arith),
    keep_high (s.count - i) (omega arith),
    bit_and_low s.packed (s.count - i),
  )

  pub split_postfix_field :
      (i : ℕ)
      → i ≤ s.count
      → split_at_idx_postfix s i
        ≡ some (record { count = s.count - i; packed = s.packed % radix (s.count - i) })
  unfolding split_at_idx_postfix
  split_postfix_field i h = rw (
    checked_sub_of_le s.count i h,
    create_mask_of_1s_lem (s.count - i) (omega arith),
    bit_and_low s.packed (s.count - i),
  )

  pub split_prefix_field :
      (i : ℕ)
      → i ≤ s.count
      → split_at_idx_prefix s i
        ≡ some (record { count = i; packed = s.packed / radix (s.count - i) % radix i })
  unfolding split_at_idx_prefix
  split_prefix_field i h =
      rw (checked_sub_of_le s.count i h, create_mask_of_1s_lem i (omega arith))
        (ap some (Nibbles_path refl (field_lem s.packed i (s.count - i) (omega arith))))
