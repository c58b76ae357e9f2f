-- ===== src/Nibbles/Bytes/Laws.antt =====
-- Bytes become the nibbles of their halves, and come back.
use native.Mathlib.Nat.{pow-suc, one-le-pow, mul-add-div_right, div-eq_of_lt}
use bcw_zk_evm.Common.{
  ℕ, zero, suc, ◌+◌, ◌-◌, ◌*◌, ◌/◌, ◌%◌, ◌^◌, ◌≤◌, ◌<◌, ◌≡◌, refl, sym, ap, ap₂, ◌∙◌, List, [], ◌∷◌,
  length, drop, All, some, ltb, false, ==_ne, checked_sub_of_le, arith,
}
use bcw_zk_evm.Nibbles.{Nibbles}
use bcw_zk_evm.Nibbles.Value.{radix, radix-zero, radix-suc, value, value-nil, value-cons, of_list}
use bcw_zk_evm.Nibbles.Append.{Nibbles_path}
use bcw_zk_evm.Nibbles.Bytes.{
  ok, from_big_endian, to_big_endian, from_bytes, from_bytes_be, min_bytes, bytes_be, to_h256,
  from_h256_be, from_h256_common,
}

abbrev pub AreBytes : List ℕ → Type 0
AreBytes = All (λ b. b < 256)

-- The two halves of each byte, the upper one first.
pub halves : List ℕ → List ℕ
halves [] = []
halves (b ∷ bytes) = b / 16 ∷ b % 16 ∷ halves bytes

length-halves : (bytes : List ℕ) → length (halves bytes) ≡ length bytes * 2
unfolding halves
length-halves [] = refl
length-halves (b ∷ bytes) = omega (arith, length-halves bytes)

byte_radix : (bytes : List ℕ) → radix (length (halves bytes)) ≡ 256 ^ length bytes
unfolding halves
byte_radix [] = radix-zero ∙ omega arith
byte_radix (b ∷ bytes) = omega (
  arith,
  radix-suc (length (halves bytes)),
  radix-suc (suc (length (halves bytes))),
  byte_radix bytes,
  pow-suc 256 (length bytes),
)

value-halves : (bytes : List ℕ) → value (halves bytes) ≡ from_big_endian bytes
unfolding halves from_big_endian
value-halves [] = value-nil
value-halves (b ∷ bytes) =
    let r = radix (length (halves bytes)) in
    let split : b * r ≡ (b / 16 * 16 + b % 16) * r = ap (λ (t : ℕ). t * r) (omega arith) in
    let same : b * r ≡ b * 256 ^ length bytes = ap (λ (t : ℕ). b * t) (byte_radix bytes) in
    omega (
      arith,
      value-cons (b / 16) (b % 16 ∷ halves bytes),
      value-cons (b % 16) (halves bytes),
      ap (λ (t : ℕ). b / 16 * t) (radix-suc (length (halves bytes))),
      value-halves bytes,
      split,
      same,
    )

drop-to_big_endian : (k n x : ℕ) → drop k (to_big_endian (k + n) x) ≡ to_big_endian n x
unfolding to_big_endian
drop-to_big_endian zero n x = ap (λ m. to_big_endian m x) (omega arith)
drop-to_big_endian (suc k) n x =
    ap (λ m. drop (suc k) (to_big_endian m x)) next ∙ drop-to_big_endian k n x
  where
    next : suc k + n ≡ suc (k + n)
    next = omega arith

from_big_endian-lt : (bytes : List ℕ) → AreBytes bytes → from_big_endian bytes < 256 ^ length bytes
unfolding from_big_endian
from_big_endian-lt [] h = omega arith
from_big_endian-lt (b ∷ bytes) h =
    grind (arith, pow-suc 256 (length bytes), from_big_endian-lt bytes h.1)

to-from_big_endian :
    (high : ℕ) (bytes : List ℕ)
    → AreBytes bytes
    → to_big_endian (length bytes) (high * 256 ^ length bytes + from_big_endian bytes) ≡ bytes
unfolding to_big_endian from_big_endian
to-from_big_endian high [] h = refl
to-from_big_endian high (b ∷ bytes) h =
    ap₂ (λ x xs. x ∷ xs) head
      (ap (λ t. to_big_endian (length bytes) t) regroup
        ∙ to-from_big_endian (high * 256 + b) bytes h.1)
  where
    p : ℕ
    p = 256 ^ length bytes

    regroup :
        high * 256 ^ suc (length bytes) + (b * p + from_big_endian bytes)
        ≡ (high * 256 + b) * p + from_big_endian bytes
    regroup = omega (arith, ap (λ (t : ℕ). high * t) (pow-suc 256 (length bytes)))

    head : (high * 256 ^ suc (length bytes) + (b * p + from_big_endian bytes)) / p % 256 ≡ b
    head =
        ap (λ t. t / p % 256) regroup
        ∙ ap (λ t. t % 256)
            (mul-add-div_right (one-le-pow (length bytes) 256 (omega arith)) (high * 256 + b)
              (from_big_endian bytes))
        ∙ ap (λ t. (high * 256 + b + t) % 256) (div-eq_of_lt (from_big_endian-lt bytes h.1))
        ∙ omega (arith, h.0)

module _ (bytes : List ℕ) (are_bytes : AreBytes bytes) (some_bytes : 0 < length bytes)
    (fits : length bytes ≤ 33) where
  -- Between one and 33 bytes are accepted: `from_bytes_be` gives the sequence of their halves.
  pub from_bytes_be_lem : from_bytes_be bytes ≡ ok (of_list (halves bytes))
  unfolding from_bytes_be from_bytes of_list
  from_bytes_be_lem =
      let short : ltb 33 (length bytes) ≡ false = ground arith in
      rw (==_ne (length bytes) 0 (omega (arith, some_bytes)), short)
        (ap ok (Nibbles_path (sym (length-halves bytes)) (sym (value-halves bytes))))

  halves-bytes_be : bytes_be (of_list (halves bytes)) ≡ some bytes
  unfolding bytes_be min_bytes of_list
  halves-bytes_be = rw (half, checked_sub_of_le 40 n (omega (arith, fits))) (ap some digits)
    where
      n : ℕ
      n = length bytes

      width : 40 ≡ (40 - n) + n
      width = omega (arith, fits)

      half : (length (halves bytes) + 1) / 2 ≡ n
      half = omega (arith, length-halves bytes)

      digits : drop (40 - n) (to_big_endian 40 (value (halves bytes))) ≡ bytes
      digits =
          ap₂ (λ w x. drop (40 - n) (to_big_endian w x)) width (value-halves bytes)
          ∙ drop-to_big_endian (40 - n) n (from_big_endian bytes)
          ∙ ap (λ x. to_big_endian n x) (omega arith)
          ∙ to-from_big_endian 0 bytes are_bytes

  -- Between one and 33 bytes come back from the sequence that `from_bytes_be` makes of them by
  -- `bytes_be`.
  pub from_bytes_be-bytes_be :
      (s : Nibbles) × (from_bytes_be bytes ≡ ok s) × (bytes_be s ≡ some bytes)
  from_bytes_be-bytes_be = (of_list (halves bytes), from_bytes_be_lem, halves-bytes_be)

-- The 32 bytes of an `H256` come back from the sequence of 64 nibbles that they make.
pub from_h256_be-to_h256 :
    (bytes : List ℕ)
    → AreBytes bytes
    → length bytes ≡ 32
    → to_h256 (from_h256_be bytes) ≡ some bytes
unfolding to_h256 from_h256_be from_h256_common
from_h256_be-to_h256 bytes are_bytes counted =
    rw
      (
        made,
        halves-bytes_be bytes are_bytes (omega (arith, counted)) (omega (arith, counted)),
        counted,
        counted,
      )
      refl
  where
    made :
        ◌≡◌ {A = Nibbles}
          (record { count = 64; packed = from_big_endian bytes })
          (of_list (halves bytes))
    made =
        unfold of_list in
        Nibbles_path (omega (arith, counted, length-halves bytes)) (sym (value-halves bytes))
