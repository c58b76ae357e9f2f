-- ===== src/Smt/Bits/Prefix.antt =====
-- `common_prefix`: what two sequences begin with alike, and the bits where they part.
use native.Mathlib.Nat.{pow-suc}
use bcw_zk_evm.Common.{
  bound_known, ℕ, zero, suc, ◌+◌, ◌/◌, ◌%◌, ◌^◌, ◌<◌, Bool, leb, ◌==◌, ==_iff, ==_refl, Option,
  none, some, ◌>>=◌, ◌>>◌, assert, List, [], ◌∷◌, ◌++◌, ◌≡◌, ◌≢◌, refl, ap, subst, sym, ◌∙◌, arith,
  ◌⊎◌, inl, inr, Bool-cases,
}
use bcw_zk_evm.Smt.Bits.{Bits, eq_bits, shorten, level_prefix, common_prefix, differ}
use bcw_zk_evm.Smt.Bits.Laws.{digits, to_list, IsBits, bits, pop_next_bit_lem}
use bcw_zk_evm.Smt.Bits.Popping.{
  IsPrefix, Splits, IsPrefix-trans, shorten_lem, Parted, differ_lowest, pop_until_equal_lem,
}

-- For sequences of one length: all that they share is all of both.
abbrev LevelSplits : List Bool → List Bool → List Bool → Option (Bool × Bool) → Type 0
LevelSplits xs ys prefix none = (prefix ≡ xs) × (prefix ≡ ys)
LevelSplits xs ys prefix (some b) = Splits xs ys prefix (some b)

abbrev LevelSplit : List Bool → List Bool → Option (Bits × Option (Bool × Bool)) → Type 0
LevelSplit xs ys o =
    (c : Bits) × (b : Option (Bool × Bool)) × (o ≡ some (c, b)) × LevelSplits xs ys (to_list c) b

level_same : (k r s : ℕ) → r ≡ s → LevelSplit (digits k r) (digits k s) (some (bits k r, none))
unfolding to_list
level_same k r s e = (bits k r, none, refl, (refl, ap (digits k) e))

level-Parted :
    (xs ys : List Bool) (o : Option (Bits × Bool × Bool))
    → Parted xs ys o
    → LevelSplit xs ys (o >>= λ r. (assert (differ r.1 r.2) >> some (r.0, some (r.1, r.2))))
level-Parted xs ys o (c, x, y, e, splits) =
    (c, some (x, y), bound_known o _ (c, x, y) e ∙ rw splits.2 refl, splits)

level_prefix_lem :
    (k r s : ℕ)
    → r < 2 ^ k
    → s < 2 ^ k
    → LevelSplit (digits k r) (digits k s) (level_prefix (bits k r) (bits k s))
unfolding level_prefix eq_bits digits
level_prefix_lem zero r s h g =
    let equal : r ≡ s = omega arith in
    rw ((==_iff r s).1 equal, level_prefix) (level_same zero r s equal)
level_prefix_lem (suc k) r s h g = elim (Bool-cases (r == s)) [
  | inl same ↦
      let equal : r ≡ s = (==_iff r s).0 same in
      rw (==_refl (suc k), same, level_prefix) (level_same (suc k) r s equal)
  | inr other ↦
      let unequal : r ≢ s = ground arith in
      rw (==_refl (suc k), other, level_prefix, pop_next_bit_lem k r, pop_next_bit_lem k s)
        (level-Parted (digits (suc k) r) (digits (suc k) s) _ (
          pop_until_equal_lem (suc k + 1) k (r / 2) (s / 2) (r % 2 == 1) (s % 2 == 1) (omega arith)
            (omega (arith, pow-suc 2 k)) (omega (arith, pow-suc 2 k)) (differ_lowest r s unequal)))
]

-- What the beginnings share, the lists share.
widen :
    (xs ys us vs prefix : List Bool) (b : Option (Bool × Bool))
    → IsPrefix us xs
    → IsPrefix vs ys
    → (us ≡ xs) ⊎ (vs ≡ ys)
    → LevelSplits us vs prefix b
    → Splits xs ys prefix b
widen xs ys us vs prefix none l r (inl e) (p, q) =
    (subst (λ w. IsPrefix w xs) (sym p) l, subst (λ w. IsPrefix w ys) (sym q) r, inl (p ∙ e))
widen xs ys us vs prefix none l r (inr e) (p, q) =
    (subst (λ w. IsPrefix w xs) (sym p) l, subst (λ w. IsPrefix w ys) (sym q) r, inr (q ∙ e))
widen xs ys us vs prefix (some b) l r e (p, q, d) = (
  IsPrefix-trans (prefix ++ b.0 ∷ []) us xs p l,
  IsPrefix-trans (prefix ++ b.1 ∷ []) vs ys q r,
  d,
)

-- `common_prefix` of any two sequences of bits returns, with what both begin with: with no further
-- bits where that is one of the two, and otherwise with the bit that comes next in each, which differ.
pub common_prefix-Splits :
    (a b : Bits)
    → IsBits a
    → IsBits b
    → (r : Bits × Option (Bool × Bool)) × (common_prefix a b ≡ some r)
      × Splits (to_list a) (to_list b) (to_list r.0) r.1
unfolding common_prefix to_list
common_prefix-Splits a b va vb =
    let (r, k, e, fits, left, size, all) =
      shorten_lem (a.count + 1) a.count a.packed b.count (omega arith) va.fits in
    let (s, j, f, fits', right, size', all') =
      shorten_lem (b.count + 1) b.count b.packed k (omega arith) vb.fits in
    let one : j ≡ k = omega arith in
    let (c, o, g, split) = level_prefix_lem k r s fits (subst (λ i. s < 2 ^ i) one fits') in
    let run : common_prefix a b ≡ some (c, o) =
      bound_known (shorten (a.count + 1) a b.count) _ (bits k r) e
      ∙ bound_known (shorten (b.count + 1) b k) _ (bits j s) f
      ∙ ap (λ i. level_prefix (bits k r) (bits i s)) one
      ∙ g in
    let prefix = subst (λ i. IsPrefix (digits i s) (digits b.count b.packed)) one right in
    let whole : (digits k r ≡ digits a.count a.packed) ⊎ (digits k s ≡ digits b.count b.packed) =
      elim (Bool-cases (leb a.count b.count)) [
        | inl shorter ↦ inl (all (ground arith))
        | inr longer ↦
            inr (subst (λ i. digits i s ≡ digits b.count b.packed) one (all' (ground arith)))
      ] in
    (
      (c, o),
      run,
      widen (digits a.count a.packed) (digits b.count b.packed) (digits k r) (digits k s)
          (to_list c) o left prefix whole split,
    )
