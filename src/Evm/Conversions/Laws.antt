-- ===== src/Evm/Conversions/Laws.antt =====
-- What the checked conversions of `evm_arithmetization/src/util.rs` accept and return.
use bcw_zk_evm.Common.{
  ℕ, ◌+◌, ◌*◌, ◌/◌, ◌%◌, ◌^◌, ◌≤◌, ◌<◌, ◌≡◌, refl, ltb, if◌then◌else◌, Bool-cases, inl, inr, true,
  false, arith,
}
use bcw_zk_evm.Evm.Errors.{ProgramError, Result, ok, err}
use bcw_zk_evm.Evm.Conversions.{u256_to_u64, u256_to_h160}
use bcw_zk_evm.Evm.Memory.Address.{IsBitLength}

-- What the two limbs of a conversion to 64 bits are: the error is for the numbers that do not fit.
abbrev pub Limbs : ℕ → Result (ℕ × ℕ) → Type 0
Limbs x (ok (lo, hi)) = (lo < 2 ^ 32) × (hi < 2 ^ 32) × (lo + hi * 2 ^ 32 ≡ x)
Limbs x (err e) = 2 ^ 64 ≤ x

-- `u256_to_u64` splits a number into two limbs of 32 bits that make it up again, and fails only at a
-- number beyond 64 bits.
pub u256_to_u64_lem : (x : ℕ) → Limbs x (u256_to_u64 x)
unfolding u256_to_u64
u256_to_u64_lem x = elim (Bool-cases (ltb x (2 ^ 64))) [
  | inl small ↦ rw small (omega arith, omega arith, ground arith)
  | inr large ↦ rw large (ground arith)
]

-- `u256_to_h160` accepts every number below 2 to the 167 and keeps its low 160 bits; it fails at the
-- numbers from there on.
pub u256_to_h160_lem :
    (bits : ℕ → ℕ) (x : ℕ)
    → IsBitLength bits
    → u256_to_h160 bits x
      ≡ (if ltb x (2 ^ 167) then ok (x % 2 ^ 160) else err ProgramError.integer_too_large)
unfolding u256_to_h160
u256_to_h160_lem bits x bits_iff = elim (Bool-cases (ltb x (2 ^ 167))) [
  | inl small ↦
      (let short : bits x ≤ 167 = (bits_iff x 167).1 (ground arith) in
        let passed : ltb 20 (bits x / 8) ≡ false = ground arith in rw (small, passed) refl)
  | inr large ↦
      (let refused : ltb 20 (bits x / 8) ≡ true = elim (Bool-cases (ltb 20 (bits x / 8))) [
        | inl r ↦ r
        | inr r ↦
            absurd (let below : x < 2 ^ 167 = (bits_iff x 167).0 (ground arith) in ground arith)
      ] in
        rw (large, refused) refl)
]
