-- ===== src/Kernel/Opcodes/Laws.antt =====
-- The opcodes that the assembler writes, and those that the processor decodes.
use Prim.Native.String.{String}
use text.Mathlib.TextEquality.{eq_iff}
use bcw_zk_evm.Common.{
  ℕ, Bool, true, false, ◌||◌, ◌==◌, ==_iff, Bool-cases, List, [], ◌∷◌, Option, some, some_inj, ◌≡◌,
  ◌≢◌, refl, sym, ap, ◌∙◌, subst, inl, inr, arith, if◌then◌else◌,
}
use bcw_zk_evm.Evm.Errors.{Result, ok, err}
use bcw_zk_evm.Evm.Operation.{Operation, RegistersState}
use bcw_zk_evm.Evm.Decode.{decode}
use bcw_zk_evm.Kernel.Optimizer.{◌is◌}
use bcw_zk_evm.Kernel.Opcodes.{lookup, opcodes, get_opcode}

true-false : true ≡ false → ⊥
true-false e = ground arith

module _ (b : Bool) where
  if_false : (rest : Bool) → (if b then rest else false) ≡ true → (b ≡ true) × (rest ≡ true)
  if_false rest h = elim (Bool-cases b) [
    | inl e ↦ (e, cc (e, h))
    | inr e ↦ absurd (true-false (sym h ∙ ap (λ c. if c then rest else false) e))
  ]

  if_hit : (v w : ℕ) (rest : Option ℕ) → b ≡ true → (if b then some v else rest) ≡ some w → v ≡ w
  if_hit v w rest e h = some_inj (sym (ap (λ c. if c then some v else rest) e) ∙ h)

  if_miss :
      {A : Type 0} (v : A) (rest found : A)
      → b ≡ false
      → (if b then v else rest) ≡ found
      → rest ≡ found
  if_miss v rest found e h = sym (ap (λ c. if c then v else rest) e) ∙ h

module _ (test : String → ℕ → Bool) where
  all : List (String × ℕ) → Bool
  all [] = true
  all (entry ∷ entries) = if test entry.0 entry.1 then all entries else false

  -- A test that all entries pass holds of what is looked up.
  all-lookup :
      (entries : List (String × ℕ))
      → all entries ≡ true
      → (key : String) (value : ℕ) → lookup key entries ≡ some value
      → test key value ≡ true
  unfolding all lookup
  all-lookup [] h key value e = absurd (ground arith)
  all-lookup (entry ∷ entries) h key value e =
      let both = if_false (test entry.0 entry.1) (all entries) h in
      elim (Bool-cases (entry.0 is key)) [
        | inl same ↦
            subst (λ k. test k value ≡ true) ((eq_iff entry.0 key).0 same)
              (subst (λ v. test entry.0 v ≡ true)
                (if_hit (entry.0 is key) entry.1 value (lookup key entries) same e) both.0)
        | inr other ↦
            all-lookup entries both.1 key value
              (if_miss (entry.0 is key) (some entry.1) (lookup key entries) (some value) other e)
      ]

-- Whether a computation has a result.
is_ok : Result Operation → Bool
is_ok (ok op) = true
is_ok (err e) = false

-- The two opcodes that stop the processor.
stops : String → Bool
stops mnemonic = (mnemonic is "PANIC") || (mnemonic is "INVALID")

decodes : RegistersState → String → ℕ → Bool
unfolding decode is_ok stops
decodes registers mnemonic opcode =
    if stops mnemonic then true else is_ok (decode (record registers { is_kernel = true }) opcode)

all_decode : (registers : RegistersState) → all (decodes registers) opcodes ≡ true
unfolding all decodes
all_decode registers = refl

or_names : (a b : Bool) → a ≡ false → b ≡ false → (a || b) ≡ false
or_names a b h k = cc (h, k)

is_not : (s t : String) → s ≢ t → (s is t) ≡ false
is_not s t h = elim (Bool-cases (s is t)) [ inl e ↦ absurd (h ((eq_iff s t).0 e)) | inr e ↦ e ]

result_of : (r : Result Operation) → is_ok r ≡ true → (op : Operation) × (r ≡ ok op)
unfolding is_ok
result_of (ok op) h = (op, refl)
result_of (err e) h = absurd (true-false (sym h))

-- In the kernel, the processor decodes every opcode that the assembler gives a mnemonic, except those
-- of `PANIC` and `INVALID`.
pub get_opcode-decode :
    (to_uppercase : String → String) (mnemonic : String) (opcode : ℕ) (registers : RegistersState)
    → get_opcode to_uppercase mnemonic ≡ some opcode
    → ◌≢◌ {A = String} (to_uppercase mnemonic) "PANIC"
    → ◌≢◌ {A = String} (to_uppercase mnemonic) "INVALID"
    → (op : Operation) × (decode (record registers { is_kernel = true }) opcode ≡ ok op)
unfolding get_opcode decodes stops
get_opcode-decode to_uppercase mnemonic opcode registers e not_panic not_invalid =
    let name = to_uppercase mnemonic in
    let known = all-lookup (decodes registers) opcodes (all_decode registers) name opcode e in
    result_of (decode (record registers { is_kernel = true }) opcode) (
      if_miss (stops name) true (is_ok (decode (record registers { is_kernel = true }) opcode)) true
        (or_names (name is "PANIC") (name is "INVALID") (is_not name "PANIC" not_panic)
          (is_not name "INVALID" not_invalid))
        known)

-- Whether no entry has the value.
absent : ℕ → List (String × ℕ) → Bool
absent value [] = true
absent value (entry ∷ entries) = if entry.1 == value then false else absent value entries

distinct : List (String × ℕ) → Bool
unfolding absent
distinct [] = true
distinct (entry ∷ entries) = if absent entry.1 entries then distinct entries else false

opcodes-distinct : distinct opcodes ≡ true
unfolding distinct
opcodes-distinct = refl

absent-lookup :
    (value : ℕ) (entries : List (String × ℕ)) (key : String)
    → absent value entries ≡ true
    → lookup key entries ≡ some value
    → ⊥
unfolding absent lookup
absent-lookup value [] key h e = ground arith
absent-lookup value (entry ∷ entries) key h e = elim (Bool-cases (entry.0 is key)) [
  | inl same ↦
      let v = if_hit (entry.0 is key) entry.1 value (lookup key entries) same e in
      true-false
        (sym h ∙ ap (λ b. if b then false else absent value entries) ((==_iff entry.1 value).1 v))
  | inr other ↦ elim (Bool-cases (entry.1 == value)) [
    | inl here ↦ true-false (sym h ∙ ap (λ b. if b then false else absent value entries) here)
    | inr away ↦
        absent-lookup value entries key
          (if_miss (entry.1 == value) false (absent value entries) true away h)
          (if_miss (entry.0 is key) (some entry.1) (lookup key entries) (some value) other e)
  ]
]

-- The value of the first entry, found again behind it.
clash :
    (entry : String × ℕ) (entries : List (String × ℕ)) (a b : String) (value : ℕ)
    → absent entry.1 entries ≡ true
    → (entry.0 is a) ≡ true
    → (entry.0 is b) ≡ false
    → lookup a (entry ∷ entries) ≡ some value
    → lookup b (entry ∷ entries) ≡ some value
    → ⊥
unfolding lookup
clash entry entries a b value h ea nb e f =
    let v = if_hit (entry.0 is a) entry.1 value (lookup a entries) ea e in
    absent-lookup entry.1 entries b h
      (if_miss (entry.0 is b) (some entry.1) (lookup b entries) (some value) nb f ∙ ap some (sym v))

distinct-lookup :
    (entries : List (String × ℕ)) (a b : String) (value : ℕ)
    → distinct entries ≡ true
    → lookup a entries ≡ some value
    → lookup b entries ≡ some value
    → a ≡ b
unfolding distinct lookup
distinct-lookup [] a b value h e f = absurd (ground arith)
distinct-lookup (entry ∷ entries) a b value h e f =
    let both = if_false (absent entry.1 entries) (distinct entries) h in
    elim (Bool-cases (entry.0 is a)) [
      | inl ea ↦ elim (Bool-cases (entry.0 is b)) [
        | inl eb ↦ sym ((eq_iff entry.0 a).0 ea) ∙ (eq_iff entry.0 b).0 eb
        | inr nb ↦ absurd (clash entry entries a b value both.0 ea nb e f)
      ]
      | inr na ↦ elim (Bool-cases (entry.0 is b)) [
        | inl eb ↦ absurd (clash entry entries b a value both.0 eb na f e)
        | inr nb ↦
            distinct-lookup entries a b value both.1
              (if_miss (entry.0 is a) (some entry.1) (lookup a entries) (some value) na e)
              (if_miss (entry.0 is b) (some entry.1) (lookup b entries) (some value) nb f)
      ]
    ]

-- No two mnemonics that differ, in upper case, have one opcode.
get_opcode-injective :
    (to_uppercase : String → String) (a b : String) (opcode : ℕ)
    → get_opcode to_uppercase a ≡ some opcode
    → get_opcode to_uppercase b ≡ some opcode
    → to_uppercase a ≡ to_uppercase b
unfolding get_opcode
get_opcode-injective to_uppercase a b opcode =
    distinct-lookup opcodes (to_uppercase a) (to_uppercase b) opcode opcodes-distinct
