-- ===== src/Kernel/Tests.antt =====
-- Code that the optimizer takes, and the theorems at it.
use Prim.Native.String.{String}
use bcw_zk_evm.Common.{
  ltb, ◌^◌, ◌/◌, ◌-◌, ◌≤◌, leb, if◌then◌else◌, Bool-cases, inl, inr, ℕ, List, [], ◌∷◌, All, Option,
  none, some, some_inj, ◌≡◌, ◌≢◌, ◌∙◌, true, false, refl, sym, ◌⊎◌, arith,
}
use text.Mathlib.TextEquality.{eq_iff}
use bcw_zk_evm.Evm.Operation.{BinaryOperator}
use bcw_zk_evm.Evm.Arithmetic.{binary_result}
use bcw_zk_evm.Kernel.{Item, PushTarget}
use bcw_zk_evm.Kernel.Windows.{replace_windows}
use bcw_zk_evm.Kernel.Windows.Weights.{Lowers}
use bcw_zk_evm.Kernel.Windows.Normal.{IsNormal, replace_windows-IsNormal}
use bcw_zk_evm.Kernel.Windows.Total.{Returns}
use bcw_zk_evm.Kernel.Optimizer.{
  optimize_asm, optimize_asm_once, fold_binary, ignored_value_window, ◌is◌,
}
use bcw_zk_evm.Kernel.Optimizer.Refines.{IsSound}
use bcw_zk_evm.Kernel.Optimizer.Folding.{fold_binary-byte}
use bcw_zk_evm.Kernel.Optimizer.Total.{optimize_asm-Returns}
use bcw_zk_evm.Kernel.Optimizer.Shrinks.{optimize_asm_fixed}
use bcw_zk_evm.Kernel.Optimizer.Correct.{optimize_asm-exec_rounds}
use bcw_zk_evm.Kernel.Machine.{State, running, fault, exec, exec_rounds}

abbrev op : String → Item
op name = Item.standard_op name

abbrev lit : ℕ → Item
lit x = Item.push (PushTarget.literal x)

-- A product, a jump to the next label, a copy that is dropped, and an addition of zero.
abbrev code : List Item
code =
    lit 3
    ∷ lit 4
    ∷ op "MUL"
    ∷ Item.push (PushTarget.label "next")
    ∷ op "JUMP"
    ∷ Item.local_label_declaration "next"
    ∷ op "DUP1"
    ∷ op "POP"
    ∷ lit 0
    ∷ op "ADD"
    ∷ []

abbrev optimized : List Item
optimized = lit 12 ∷ Item.local_label_declaration "next" ∷ []

-- Shifts that agree with the processor.
abbrev shl : ℕ → ℕ → Option ℕ
shl y x = some (binary_result BinaryOperator.shl x y)

abbrev shr : ℕ → ℕ → Option ℕ
shr y x = some (binary_result BinaryOperator.shr x y)

-- Labels at one address, and no item beyond those of the machine.
abbrev resolve : PushTarget → ℕ
resolve t = 7

abbrev perform : Item → Unit {0} → List ℕ → Option (Unit {0} × List ℕ)
perform item r s = none

code-optimized : optimize_asm shl shr code ≡ some optimized
unfolding optimize_asm
code-optimized = refl

distinct_names : (s t : String) → (s is t) ≡ false → ◌≢◌ {A = String} s t
distinct_names s t h e = true-false (sym ((eq_iff s t).1 e) ∙ h)
  where
    true-false : true ≡ false → ⊥
    true-false f = ground arith

not_byte : (name : String) → (name is "BYTE") ≡ false → ◌≢◌ {A = String} name "BYTE"
not_byte name h = distinct_names name "BYTE" h

code-IsSound : All IsSound code
code-IsSound = (
  omega arith,
  (
    omega arith,
    (
      not_byte "MUL" refl,
      (
        tt,
        (
          not_byte "JUMP" refl,
          (
            tt,
            (not_byte "DUP1" refl, (not_byte "POP" refl, (omega arith, (not_byte "ADD" refl, tt)))),
          ),
        ),
      ),
    ),
  ),
)

abbrev start : State Unit
start = running tt (5 ∷ [])

optimize_asm-exec_rounds_example :
    (exec_rounds resolve perform 2 code start ≡ fault)
    ⊎ (exec_rounds resolve perform 2 code start ≡ exec_rounds resolve perform 2 optimized start)
optimize_asm-exec_rounds_example =
    optimize_asm-exec_rounds resolve perform shl shr (λ y x r e. sym (some_inj e))
      (λ y x r e. sym (some_inj e)) code optimized code-IsSound code-optimized 2 start
      (omega arith, tt)

-- The run of the original.
code_run : exec_rounds resolve perform 2 code start ≡ running tt (12 ∷ 5 ∷ [])
unfolding exec_rounds
code_run = refl

optimize_asm-Returns_example : Returns (optimize_asm shl shr code)
optimize_asm-Returns_example = optimize_asm-Returns shl shr code (
    (
      tt,
      (
        tt,
        (
          (refl, refl),
          (tt, ((refl, refl), (tt, ((refl, refl), ((refl, refl), (tt, ((refl, refl), tt))))))),
        ),
      ),
    ))

optimize_asm_fixed_example : optimize_asm_once shl shr optimized ≡ some optimized
optimize_asm_fixed_example = optimize_asm_fixed shl shr code optimized code-optimized

abbrev ignored : List Item
ignored = lit 1 ∷ lit 2 ∷ op "POP" ∷ op "POP" ∷ op "ADD" ∷ []

-- The second pair meets after the first is gone.
ignored_removed : replace_windows 1 ignored_value_window 11 ignored ≡ some (op "ADD" ∷ [])
unfolding replace_windows ignored_value_window
ignored_removed = refl

-- A number is split in two, until all are below two: the list grows.
abbrev halve : List ℕ → Option (Option (List ℕ))
halve (n ∷ []) = if leb 2 n then some (some (n / 2 ∷ (n - n / 2) ∷ [])) else some none
halve _ = some none

abbrev weight : ℕ → ℕ
weight n = n - 1

halve-Lowers : Lowers 0 halve weight
halve-Lowers [] size = inl refl
halve-Lowers (n ∷ []) size = elim (Bool-cases (leb 2 n)) [
  | inl large ↦
      let many : 2 ≤ n = ground arith in inr (n / 2 ∷ (n - n / 2) ∷ [], rw large refl, omega arith)
  | inr small ↦ inl (rw small refl)
]
halve-Lowers (n ∷ m ∷ rest) size = inl refl

-- As the source's test of factors does, it needs more rounds than for shorter replacements.
halved : replace_windows 0 halve 9 (3 ∷ 4 ∷ []) ≡ none
unfolding replace_windows
halved = refl

halved_later : replace_windows 0 halve 20 (3 ∷ 4 ∷ []) ≡ some (1 ∷ 1 ∷ 1 ∷ 1 ∷ 1 ∷ 1 ∷ 1 ∷ [])
unfolding replace_windows
halved_later = refl

replace_windows-IsNormal_example :
    (rounds : ℕ) × (out : List ℕ) × ((more : ℕ)
      → rounds ≤ more
      → replace_windows 0 halve more (3 ∷ 4 ∷ []) ≡ some out)
    × IsNormal 0 halve out
replace_windows-IsNormal_example = replace_windows-IsNormal 0 halve weight halve-Lowers (3 ∷ 4 ∷ [])

fold_binary-byte_example :
    fold_binary shl shr "BYTE" 0 1 ≡ some (some (binary_result BinaryOperator.byte 31 1))
fold_binary-byte_example = fold_binary-byte shl shr 0 1 (omega arith)

abbrev byte_code : List Item
byte_code = lit 1 ∷ lit 0 ∷ op "BYTE" ∷ []

-- The processor takes the highest byte of 1, and the optimized code the lowest.
byte_run : exec resolve perform byte_code start ≡ running tt (0 ∷ 5 ∷ [])
unfolding exec
byte_run = refl

byte_optimized : optimize_asm shl shr byte_code ≡ some (lit 1 ∷ [])
unfolding optimize_asm
byte_optimized = refl

-- `<<` of a `U256` by a `U256` panics on an amount above `usize::MAX`.
abbrev panicking_shl : ℕ → ℕ → Option ℕ
panicking_shl y x = if ltb x (2 ^ 64) then shl y x else none

abbrev shift_code : List Item
shift_code = lit 1 ∷ lit (2 ^ 64) ∷ op "SHL" ∷ []

shift_panics : optimize_asm panicking_shl shr shift_code ≡ none
unfolding optimize_asm
shift_panics = refl

-- The processor gives 0.
shift_run : exec resolve perform shift_code start ≡ running tt (0 ∷ 5 ∷ [])
unfolding exec
shift_run = refl
