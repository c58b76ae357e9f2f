-- ===== src/Kernel/Windows.antt =====
-- `replace_windows` of `evm_arithmetization/src/cpu/kernel/utils.rs`.
pub mod Total
pub mod Weights
pub mod Normal
pub mod Preserves
use bcw_zk_evm.Common.{
  ℕ, zero, suc, ◌+◌, ◌-◌, ◌*◌, ◌≤◌, ◌<◌, List, ◌++◌, length, take, drop, Option, none, some, leb,
  Option-cases, Bool-cases, inl, inr, ◌≡◌, ap, ◌∙◌, arith, true, false,
}

-- The rounds for a closure whose replacements are shorter than their windows.
abbrev pub rounds_for {ℓ} : {A : Type ℓ} → ℕ → List A → ℕ
rounds_for w vec = suc w * length vec + 1

-- The windows have `suc w` items: every window of the source has at least one. The closure's `none`
-- is a panic, and `some none` leaves the window. The first number is the rounds left; `none` is the
-- closure's panic, or too few rounds.
module _ {ℓ} {A : Type ℓ} (w : ℕ) (maybe_replace : List A → Option (Option (List A))) where
  unfoldable pub replace_from : ℕ → ℕ → List A → Option (List A)
  replace_from zero start vec = none
  replace_from (suc rounds) start vec = elim (leb (start + suc w) (length vec)) [
    | true ↦ elim (maybe_replace (take (suc w) (drop start vec))) [
      | none ↦ none
      | some none ↦ replace_from rounds (start + 1) vec
      | some (some replacement) ↦
          replace_from rounds (start - w)
            (take start vec ++ (replacement ++ drop (start + suc w) vec))
    ]
    | false ↦ some vec
  ]

  unfoldable pub replace_windows : ℕ → List A → Option (List A)
  unfolding replace_from
  replace_windows rounds vec = replace_from rounds 0 vec

  -- The branches of a round.
  pub replace_from-cases {κ} :
      (P : Option (List A) → Type κ) (rounds start : ℕ) (vec : List A)
      → (length vec < start + suc w → P (some vec))
      → (start + suc w ≤ length vec → maybe_replace (take (suc w) (drop start vec)) ≡ none → P none)
      → (start + suc w ≤ length vec
          → maybe_replace (take (suc w) (drop start vec)) ≡ some none
          → P (replace_from rounds (start + 1) vec))
      → ((replacement : List A)
          → start + suc w ≤ length vec
          → maybe_replace (take (suc w) (drop start vec)) ≡ some (some replacement)
          → P (
              replace_from rounds
                (start - w)
                (take start vec ++ (replacement ++ drop (start + suc w) vec))))
      → P (replace_from (suc rounds) start vec)
  unfolding replace_from
  replace_from-cases P rounds start vec end panics stays changes =
      elim (Bool-cases (leb (start + suc w) (length vec))) [
        | inr short ↦ rw (short, replace_from) (end (ground arith))
        | inl long ↦
            rw (long, replace_from)
              (let fits : start + suc w ≤ length vec = ground arith in
                elim (Option-cases (maybe_replace (take (suc w) (drop start vec)))) [
                  | inl e ↦ rw (e, replace_from) (panics fits e)
                  | inr (o, e) ↦ elim (Option-cases o) [
                    | inl n ↦ rw (e, n, replace_from) (stays fits (e ∙ ap some n))
                    | inr (r, s) ↦ rw (e, s, replace_from) (changes r fits (e ∙ ap some s))
                  ]
                ])
      ]
