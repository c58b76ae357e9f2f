-- ===== src/Smt/Key/Laws.antt =====
-- The bits of a key: those of its limbs in turn, the lowest first.
use mathlib.Core.List.{append-nil, append_assoc}
use native.Mathlib.Nat.{div-div-eq-div-mul, mul_comm}
use bcw_zk_evm.Common.{
  bound_known, ℕ, zero, suc, ◌+◌, ◌*◌, ◌/◌, ◌^◌, ◌%◌, ◌≤◌, ◌<◌, ◌==◌, Bool, List, [], ◌∷◌, ◌++◌,
  Option, some, ◌>>=◌, bit_and, ◌≡◌, refl, ap, sym, ◌∙◌, arith,
}
use bcw_zk_evm.Word.Mask.{bit_and_mask, pow_add}
use bcw_zk_evm.Smt.Bits.{Bits, empty, push_bit}
use bcw_zk_evm.Smt.Bits.Laws.{to_list, IsBits, push_bit-to_list, push_bit-count}
use bcw_zk_evm.Smt.Key.{Key, shift_limbs, split_round, split_rounds, split}

-- The bits of the four limbs at a place.
abbrev bits_at : ℕ → Key → List Bool
bits_at place key =
    (key.limb_0 / 2 ^ place % 2 == 1)
    ∷ (key.limb_1 / 2 ^ place % 2 == 1)
    ∷ (key.limb_2 / 2 ^ place % 2 == 1)
    ∷ (key.limb_3 / 2 ^ place % 2 == 1)
    ∷ []

-- The bits of the limbs at `n` places from a first one on, in turn.
unfoldable pub interleaved : ℕ → ℕ → Key → List Bool
interleaved zero place key = []
interleaved (suc n) place key = bits_at place key ++ interleaved n (suc place) key

moved : (x k place : ℕ) → x / 2 ^ k / 2 ^ place ≡ x / 2 ^ (k + place)
moved x k place =
    div-div-eq-div-mul x (2 ^ k) (2 ^ place)
    ∙ ap (λ d. x / d) (mul_comm (2 ^ k) (2 ^ place) ∙ sym (pow_add k place))

-- The bits of shifted limbs are those of the limbs as many places on.
pub interleaved-shift_limbs :
    (n k place : ℕ) (key : Key)
    → interleaved n place (shift_limbs k k k k key) ≡ interleaved n (k + place) key
unfolding interleaved shift_limbs
interleaved-shift_limbs zero k place key = refl
interleaved-shift_limbs (suc n) k place key =
    let next : k + suc place ≡ suc (k + place) = omega arith in
    let rest = interleaved-shift_limbs n k (suc place) key ∙ ap (λ p. interleaved n p key) next in
    rw
      (
        moved key.limb_0 k place,
        moved key.limb_1 k place,
        moved key.limb_2 k place,
        moved key.limb_3 k place,
        rest,
      )
      refl

-- `o` is the sequence with the `n` bits of `more` behind those of `start`.
abbrev Pushed : Bits → List Bool → ℕ → Option Bits → Type 0
Pushed start more n o =
    (b : Bits) × (o ≡ some b)
    × IsBits b
    × (to_list b ≡ to_list start ++ more)
    × (b.count ≡ start.count + n)

push_bit-Pushed :
    (start : Bits) (p : ℕ)
    → IsBits start
    → start.count < 256
    → Pushed start ((p / 2 ^ 0 % 2 == 1) ∷ []) 1 (push_bit start (bit_and p 1 == 1))
push_bit-Pushed start p valid h =
    let lowest : (bit_and p 1 == 1) ≡ (p / 2 ^ 0 % 2 == 1) = ground (arith, bit_and_mask 0 1 p) in
    let (b, run, fine, bits, _) = push_bit-to_list start (p / 2 ^ 0 % 2 == 1) valid h in
    (
      b,
      ap (push_bit start) lowest ∙ run,
      fine,
      bits,
      push_bit-count start (p / 2 ^ 0 % 2 == 1) b valid h run,
    )

bind-Pushed :
    (start : Bits) (xs ys : List Bool) (m n : ℕ) (o : Option Bits) (f : Bits → Option Bits)
    → Pushed start xs m o
    → ((b : Bits) → IsBits b → b.count ≡ start.count + m → Pushed b ys n (f b))
    → Pushed start (xs ++ ys) (m + n) (o >>= f)
bind-Pushed start xs ys m n o f (b, run, fine, bits, count) rest =
    let (c, run', fine', bits', count') = rest b fine count in
    (
      c,
      bound_known o f b run ∙ run',
      fine',
      bits' ∙ ap (λ l. l ++ ys) bits ∙ append_assoc (to_list start) xs ys,
      omega arith,
    )

split_round-Pushed :
    (key : Key) (start : Bits)
    → IsBits start
    → start.count + 4 ≤ 256
    → Pushed start (bits_at 0 key) 4 (split_round key start)
unfolding split_round
split_round-Pushed key start valid h =
    bind-Pushed start _ _ 1 3 _ _ (push_bit-Pushed start key.limb_0 valid (omega arith)) λ b v e.
      bind-Pushed b _ _ 1 2 _ _ (push_bit-Pushed b key.limb_1 v (omega arith)) λ c w e'.
        bind-Pushed c _ _ 1 1 _ _ (push_bit-Pushed c key.limb_2 w (omega arith))
          λ d x e''. push_bit-Pushed d key.limb_3 x (omega arith)

split_rounds-Pushed :
    (rounds : ℕ) (key : Key) (start : Bits)
    → IsBits start
    → start.count + rounds * 4 ≤ 256
    → Pushed start (interleaved rounds 0 key) (rounds * 4) (split_rounds rounds key start)
unfolding split_rounds interleaved
split_rounds-Pushed zero key start valid h =
    (start, refl, valid, sym (append-nil (to_list start)), omega arith)
split_rounds-Pushed (suc rounds) key start valid h =
    let (b, run, fine, bits, count) =
      bind-Pushed start _ _ 4 (rounds * 4) _ _ (split_round-Pushed key start valid (omega arith))
        (λ b v e. split_rounds-Pushed rounds (shift_limbs 1 1 1 1 key) b v (omega arith)) in
    (
      b,
      run,
      fine,
      bits
          ∙ ap (λ l. to_list start ++ (bits_at 0 key ++ l))
              (interleaved-shift_limbs rounds 1 0 key),
      omega arith,
    )

-- `split` never fails, and gives the 256 bits of the limbs: of the four limbs in turn the bits at
-- place 0, then those at place 1, up to place 63.
pub split-to_list :
    (key : Key)
    → (b : Bits) × (split key ≡ some b)
      × IsBits b
      × (to_list b ≡ interleaved 64 0 key)
      × (b.count ≡ 256)
unfolding split empty to_list
split-to_list key =
    let (b, run, fine, bits, count) =
      split_rounds-Pushed 64 key empty (record { counted = omega arith; fits = omega arith })
        (omega arith) in
    (b, run, fine, bits, count)
