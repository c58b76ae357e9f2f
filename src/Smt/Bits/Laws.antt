-- ===== src/Smt/Bits/Laws.antt =====
-- `Bits` as a list of bits, the first bit first.
use bcw_zk_evm.Common.{
  some_inj, bound_known, ℕ, zero, suc, ◌+◌, ◌-◌, ◌*◌, ◌/◌, ◌%◌, ◌^◌, ◌<◌, ◌≤◌, Bool, true, false,
  ltb, ◌==◌, not, Option, some, bit_and, List, [], ◌∷◌, ◌++◌, length, get_elem?, ◌≡◌, refl, ap, ap₂,
  subst, sym, ◌∙◌, arith, lt→ltb, le→leb, length-append, Bool-cases, inl, inr,
}
use native.Mathlib.Nat.{pow-suc, pow-le-pow_right, mod-eq_of_lt, one-le-pow, mul-le-mul_right}
use mathlib.Core.List.{append-nil, append_assoc}
use bcw_zk_evm.Word.Mask.{bit_and_mask, double_pow, pow_add, div_double}
use bcw_zk_evm.Smt.Bits.{Bits, checked, add, pop_next_bit, get_bit, bit_value, push_bit, is_empty}

-- The bits of a number, the lowest last.
unfoldable pub digits : ℕ → ℕ → List Bool
digits zero p = []
digits (suc n) p = digits n (p / 2) ++ (p % 2 == 1) ∷ []

unfoldable pub to_list : Bits → List Bool
unfolding digits
to_list a = digits a.count a.packed

-- At most 256 bits, and none set beyond them.
pub record IsBits (a : Bits) : Type 0 where
  pub counted : a.count ≤ 256
  pub fits : a.packed < 2 ^ a.count

abbrev pub bits : ℕ → ℕ → Bits
bits n p = record { count = n; packed = p }

pub length-digits : (n p : ℕ) → length (digits n p) ≡ n
unfolding digits
length-digits zero p = refl
length-digits (suc n) p =
    omega (arith, length-append (digits n (p / 2)) ((p % 2 == 1) ∷ []), length-digits n (p / 2))

lowest_bit : (p : ℕ) → not (bit_and p 1 == 0) ≡ (p % 2 == 1)
lowest_bit p = ground (arith, bit_and_mask 0 1 p)

-- A pop from a sequence that is not empty takes its last bit.
pub pop_next_bit_lem :
    (n p : ℕ) → pop_next_bit (bits (suc n) p) ≡ some ((p % 2 == 1), bits n (p / 2))
unfolding pop_next_bit is_empty
pop_next_bit_lem n p =
    let less : suc n - 1 ≡ n = omega arith in
    let full : (suc n == 0) ≡ false = ground arith in rw (full, lowest_bit p, less) refl

doubled_digits : (n p : ℕ) (b : Bool) → digits (suc n) (p * 2 + bit_value b) ≡ digits n p ++ b ∷ []
unfolding digits
doubled_digits n p true =
    let half : (p * 2 + 1) / 2 ≡ p = omega arith in
    let odd : ((p * 2 + 1) % 2 == 1) ≡ true = ground arith in
    ap₂ (λ q d. digits n q ++ d ∷ []) half odd
doubled_digits n p false =
    let half : (p * 2 + 0) / 2 ≡ p = omega arith in
    let even : ((p * 2 + 0) % 2 == 1) ≡ false = ground arith in
    ap₂ (λ q d. digits n q ++ d ∷ []) half even

checked_fits : (x : ℕ) → x < 2 ^ 256 → checked x ≡ some x
unfolding checked
checked_fits x h = rw (lt→ltb x (2 ^ 256) h) refl

bit_value_le : (b : Bool) → bit_value b ≤ 1
bit_value_le true = omega arith
bit_value_le false = omega arith

-- Below 2 to the n, the next bit stays below 2 to the n + 1.
doubled_fits : (n p : ℕ) (b : Bool) → p < 2 ^ n → p * 2 + bit_value b < 2 ^ suc n
doubled_fits n p b h = omega (arith, bit_value_le b, pow-suc 2 n)

pub push_bit_lem :
    (n p : ℕ) (b : Bool)
    → n < 256
    → p < 2 ^ n
    → push_bit (bits n p) b ≡ some (bits (n + 1) (p * 2 + bit_value b))
unfolding push_bit
push_bit_lem n p b h k =
    let room : 2 ^ suc n ≤ 2 ^ 256 =
      pow-le-pow_right {n = 2} (omega arith) {i = suc n} {j = 256} (omega arith) in
    let fits = doubled_fits n p b k in
    bound_known (checked (p * 2)) _ (p * 2) (checked_fits (p * 2) (omega arith))
    ∙ bound_known (checked (p * 2 + bit_value b)) _ (p * 2 + bit_value b)
        (checked_fits (p * 2 + bit_value b) (omega arith))

popped_back :
    (n p : ℕ) (b : Bool)
    → ◌≡◌ {A = Option (Bool × Bits)}
        (some (((p * 2 + bit_value b) % 2 == 1), bits n ((p * 2 + bit_value b) / 2)))
        (some (b, bits n p))
popped_back n p true =
    let half : (p * 2 + 1) / 2 ≡ p = omega arith in
    let odd : ((p * 2 + 1) % 2 == 1) ≡ true = ground arith in
    ap₂ (λ q d. some (d, bits n q)) half odd
popped_back n p false =
    let half : (p * 2 + 0) / 2 ≡ p = omega arith in
    let even : ((p * 2 + 0) % 2 == 1) ≡ false = ground arith in
    ap₂ (λ q d. some (d, bits n q)) half even

-- On a sequence of fewer than 256 bits, `push_bit` gives a sequence with the bit behind the others,
-- and `pop_next_bit` takes the bit off again.
pub push_bit-to_list :
    (a : Bits) (b : Bool)
    → IsBits a
    → a.count < 256
    → (pushed : Bits) × (push_bit a b ≡ some pushed)
      × IsBits pushed
      × (to_list pushed ≡ to_list a ++ b ∷ [])
      × (pop_next_bit pushed ≡ some (b, a))
unfolding to_list
push_bit-to_list a b valid h =
    let packed = a.packed * 2 + bit_value b in
    let next : suc a.count ≡ a.count + 1 = omega arith in
    (
      bits (a.count + 1) packed,
      push_bit_lem a.count a.packed b h valid.fits,
      record {
        counted = omega arith;
        fits = subst (λ k. packed < 2 ^ k) next (doubled_fits a.count a.packed b valid.fits);
      },
      subst (λ k. digits k packed ≡ digits a.count a.packed ++ b ∷ []) next
          (doubled_digits a.count a.packed b),
      subst (λ k. pop_next_bit (bits k packed) ≡ some (b, a)) next
          (pop_next_bit_lem a.count packed ∙ popped_back a.count a.packed b),
    )

pub push_bit-count :
    (a : Bits) (b : Bool) (pushed : Bits)
    → IsBits a
    → a.count < 256
    → push_bit a b ≡ some pushed
    → pushed.count ≡ a.count + 1
push_bit-count a b pushed valid h e =
    ap (λ (t : Bits). t.count) (some_inj (sym e ∙ push_bit_lem a.count a.packed b h valid.fits))

digits-append :
    (m n p q : ℕ) → q < 2 ^ n → digits (m + n) (p * 2 ^ n + q) ≡ digits m p ++ digits n q
unfolding digits
digits-append m zero p q h =
    let index : m + 0 ≡ m = omega arith in
    let value : p * 2 ^ 0 + q ≡ p = omega arith in rw (index, value) (sym (append-nil (digits m p)))
digits-append m (suc n) p q h =
    let index : m + suc n ≡ suc (m + n) = omega arith in
    let half : (p * 2 ^ suc n + q) / 2 ≡ p * 2 ^ n + q / 2 = omega (arith, double_pow p n) in
    let last : (p * 2 ^ suc n + q) % 2 ≡ q % 2 = omega (arith, double_pow p n) in
    rw (index, half, last, digits-append m n p (q / 2) (omega (arith, pow-suc 2 n)))
      (append_assoc (digits m p) (digits n (q / 2)) ((q % 2 == 1) ∷ []))

-- Shifting by 256 gives 0, and then there was nothing to shift.
shift_mod : (m n p : ℕ) → m + n ≤ 256 → p < 2 ^ m → p * (2 ^ n % 2 ^ 256) ≡ p * 2 ^ n
shift_mod zero n p h k = let nothing : p ≡ 0 = omega arith in rw nothing (omega arith)
shift_mod (suc m) n p h k =
    let less : 2 ^ suc n ≤ 2 ^ 256 =
      pow-le-pow_right {n = 2} (omega arith) {i = suc n} {j = 256} (omega arith) in
    ap (λ (t : ℕ). p * t) (mod-eq_of_lt (omega (arith, pow-suc 2 n, one-le-pow n 2)))

append_fits : (m n p q : ℕ) → p < 2 ^ m → q < 2 ^ n → p * 2 ^ n + q < 2 ^ (m + n)
append_fits m n p q h k =
    omega (arith, pow_add m n, mul-le-mul_right {m = p + 1} {n = 2 ^ m} (2 ^ n) (omega arith))

-- Two sequences of at most 256 bits together: `add` gives a sequence, the bits of the first and then
-- those of the second.
pub add-to_list :
    (a b : Bits)
    → IsBits a
    → IsBits b
    → a.count + b.count ≤ 256
    → (sum : Bits) × (add a b ≡ some sum) × IsBits sum × (to_list sum ≡ to_list a ++ to_list b)
unfolding to_list add
add-to_list a b va vb h =
    let shifted = shift_mod a.count b.count a.packed h va.fits in
    let fits = append_fits a.count b.count a.packed b.packed va.fits vb.fits in
    let room : 2 ^ (a.count + b.count) ≤ 2 ^ 256 =
      pow-le-pow_right {n = 2} (omega arith) {i = a.count + b.count} {j = 256} h in
    (
      bits (a.count + b.count) (a.packed * 2 ^ b.count + b.packed),
      rw (le→leb (a.count + b.count) 256 h, shifted)
          (bound_known (checked (a.packed * 2 ^ b.count)) _ (a.packed * 2 ^ b.count)
              (checked_fits (a.packed * 2 ^ b.count) (omega arith))
            ∙ bound_known (checked (a.packed * 2 ^ b.count + b.packed)) _
                (a.packed * 2 ^ b.count + b.packed)
                (checked_fits (a.packed * 2 ^ b.count + b.packed) (omega arith))),
      record { counted = h; fits = fits },
      digits-append a.count b.count a.packed b.packed vb.fits,
    )

get_elem?-before :
    (xs ys : List Bool) (i : ℕ) → i < length xs → get_elem? (xs ++ ys) i ≡ get_elem? xs i
get_elem?-before [] ys i h = absurd (omega arith)
get_elem?-before (x ∷ xs) ys zero h = refl
get_elem?-before (x ∷ xs) ys (suc i) h = get_elem?-before xs ys i (omega arith)

get_elem?-after : (xs : List Bool) (b : Bool) → get_elem? (xs ++ b ∷ []) (length xs) ≡ some b
get_elem?-after [] b = refl
get_elem?-after (x ∷ xs) b = get_elem?-after xs b

get_elem?-digits :
    (n p i : ℕ) → i < n → get_elem? (digits n p) i ≡ some ((p / 2 ^ (n - 1 - i)) % 2 == 1)
unfolding digits
get_elem?-digits zero p i h = absurd (omega arith)
get_elem?-digits (suc n) p i h = elim (Bool-cases (ltb i n)) [
  | inl before ↦
      let small : i < n = ground arith in
      let index : suc n - 1 - i ≡ suc (n - 1 - i) = omega arith in
      get_elem?-before (digits n (p / 2)) ((p % 2 == 1) ∷ []) i
        (omega (arith, length-digits n (p / 2)))
      ∙ get_elem?-digits n (p / 2) i small
      ∙ rw (index, div_double p (n - 1 - i)) refl
  | inr last ↦
      let here : i ≡ length (digits n (p / 2)) = ground (arith, length-digits n (p / 2)) in
      let index : suc n - 1 - i ≡ 0 = ground arith in
      let whole : p / 2 ^ 0 ≡ p = omega arith in
      rw (index, whole)
        (ap (get_elem? (digits n (p / 2) ++ (p % 2 == 1) ∷ [])) here
          ∙ get_elem?-after (digits n (p / 2)) (p % 2 == 1))
]

one_bit : (k p : ℕ) → bit_and p (2 ^ k) ≡ (p / 2 ^ k % 2) * 2 ^ k
one_bit k p = ap (bit_and p) {x = 2 ^ k} {y = 1 * 2 ^ k} (omega arith) ∙ bit_and_mask k 1 p

set_test : (d w : ℕ) → d < 2 → 0 < w → not (d * w == 0) ≡ (d == 1)
set_test zero w h k = ground arith
set_test (suc zero) w h k = ground arith
set_test (suc (suc d)) w h k = absurd (omega arith)

-- Below the count of bits, `get_bit` at a place is the bit of the sequence there, from the first.
pub get_bit-to_list : (a : Bits) (i : ℕ) → i < a.count → get_bit a i ≡ get_elem? (to_list a) i
unfolding to_list get_bit
get_bit-to_list a i h =
    let k = a.count - 1 - i in
    rw (lt→ltb i a.count h, one_bit k a.packed)
      (ap some
          (set_test (a.packed / 2 ^ k % 2) (2 ^ k) (omega arith) (omega (arith, one-le-pow k 2)))
        ∙ sym (get_elem?-digits a.count a.packed i h))
