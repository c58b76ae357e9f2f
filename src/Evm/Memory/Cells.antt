-- ===== src/Evm/Memory/Cells.antt =====
-- Lists read and updated at an index, and the cells of a segment.
use bcw_zk_evm.Common.{
  ℕ, zero, suc, ◌+◌, ◌-◌, ◌≤◌, ◌<◌, ◌≡◌, ◌≢◌, refl, sym, ap, List, [], ◌∷◌, ◌++◌, length, get_elem?,
  replicate, inl, inr, length-append, true, Bool-cases, Option, none, some, leb, ◌==◌, ==_iff,
  ==_refl, if◌then◌else◌, arith,
}
use bcw_zk_evm.Evm.Memory.{MemorySegmentState, update, flatten, segment_set}

module _ {ℓ} {A : Type ℓ} where
  pub get-beyond : (xs : List A) (i : ℕ) → length xs ≤ i → get_elem? xs i ≡ none
  get-beyond [] i h = refl
  get-beyond (x ∷ xs) zero h = absurd (omega arith)
  get-beyond (x ∷ xs) (suc i) h = get-beyond xs i (omega arith)

  pub get-within : (xs : List A) (i : ℕ) → i < length xs → (x : A) × (get_elem? xs i ≡ some x)
  get-within [] i h = absurd (omega arith)
  get-within (x ∷ xs) zero h = (x, refl)
  get-within (x ∷ xs) (suc i) h = get-within xs i (omega arith)

  pub get-update_same :
      (xs : List A) (i : ℕ) (x : A) → i < length xs → get_elem? (update i x xs) i ≡ some x
  get-update_same [] i x h = absurd (omega arith)
  get-update_same (y ∷ ys) zero x h = refl
  get-update_same (y ∷ ys) (suc i) x h = get-update_same ys i x (omega arith)

  pub get-update_other :
      (xs : List A) (i j : ℕ) (x : A) → i ≢ j → get_elem? (update i x xs) j ≡ get_elem? xs j
  get-update_other [] i j x h = refl
  get-update_other (y ∷ ys) zero zero x h = absurd (h refl)
  get-update_other (y ∷ ys) zero (suc j) x h = refl
  get-update_other (y ∷ ys) (suc i) zero x h = refl
  get-update_other (y ∷ ys) (suc i) (suc j) x h = get-update_other ys i j x (λ e. h (ap suc e))

  pub length-replicate : (n : ℕ) (x : A) → length (replicate n x) ≡ n
  length-replicate zero x = refl
  length-replicate (suc n) x = ap suc (length-replicate n x)

  pub found-within : (xs : List A) (i : ℕ) (x : A) → get_elem? xs i ≡ some x → i < length xs
  found-within [] i x h = absurd (grind arith)
  found-within (y ∷ ys) zero x h = omega arith
  found-within (y ∷ ys) (suc i) x h = omega (arith, found-within ys i x h)

-- The value at an index of a segment's content.
abbrev pub content_at : List (Option ℕ) → ℕ → Option ℕ
content_at content i = flatten (get_elem? content i)

content_at-replicate : (n i : ℕ) → content_at (replicate n none) i ≡ none
content_at-replicate zero i = refl
content_at-replicate (suc n) zero = refl
content_at-replicate (suc n) (suc i) = content_at-replicate n i

content_at-padded :
    (content : List (Option ℕ)) (n i : ℕ)
    → content_at (content ++ replicate n none) i ≡ content_at content i
content_at-padded [] n i = content_at-replicate n i
content_at-padded (o ∷ content) n zero = refl
content_at-padded (o ∷ content) n (suc i) = content_at-padded content n i

-- Setting a cell of a segment changes that cell alone.
pub content_at-segment_set :
    (s : MemorySegmentState) (i v j : ℕ)
    → content_at (segment_set s i v).content j ≡ (if i == j then some v else content_at s.content j)
unfolding segment_set
content_at-segment_set s i v j = elim (Bool-cases (leb (length s.content) i)) [
  | inl h ↦ rw h (
      resized (s.content ++ replicate (i + 1 - length s.content) none)
        (content_at-padded s.content _ j) (long_enough h))
  | inr h ↦ rw h (resized s.content refl (ground arith))
]
  where
    long_enough :
        leb (length s.content) i ≡ true
        → i < length (s.content ++ replicate (i + 1 - length s.content) none)
    long_enough h = ground (
      arith,
      length-append s.content (replicate (i + 1 - length s.content) none),
      length-replicate {A = Option ℕ} (i + 1 - length s.content) none,
    )

    resized :
        (content : List (Option ℕ))
        → content_at content j ≡ content_at s.content j
        → i < length content
        → content_at (update i (some v) content) j
          ≡ (if i == j then some v else content_at s.content j)
    resized content same within = elim (Bool-cases (i == j)) [
      | inl e ↦ rw (e, sym ((==_iff i j).0 e), get-update_same content i (some v) within) refl
      | inr e ↦
          rw (e, get-update_other content i j (some v) (λ q. ground (arith, q, e, ==_refl i))) same
    ]
