-- ===== src/Kernel/Machine/Words.antt =====
-- The stack of the machine holds words of 256 bits, whatever code it runs.
use Prim.Native.String.{String}
use text.Mathlib.Text.{starts_with}
use bcw_zk_evm.Common.{
  ℕ, zero, suc, ◌%◌, ◌^◌, ◌==◌, if◌then◌else◌, List, [], ◌∷◌, All, map, get_elem?, Option, none,
  some, Bool, true, false, Bool-cases, inl, inr,
}
use bcw_zk_evm.Kernel.{Item, PushTarget}
use bcw_zk_evm.Kernel.Optimizer.{◌is◌}
use bcw_zk_evm.Kernel.Machine.{
  IsWord, binary, unary, dup_depth, State, running, jumping, fault, pushed, run_op, run_label,
  exec_item, exec, run_unary, run_binary, run_dup, run_swap1, run_pop, run_jump, run_jumpi,
  run_other,
}
use bcw_zk_evm.Kernel.Machine.Results.{
  mod-IsWord, WordFunction, binary-WordFunction, UnaryWord, unary-UnaryWord,
}

wrapped : (s : List ℕ) → All IsWord (map (λ x. x % 2 ^ 256) s)
wrapped [] = tt
wrapped (x ∷ s) = (mod-IsWord x, wrapped s)

module _ {R : Type 0} where
  -- The stack of a state holds words.
  abbrev pub Words : State R → Type 0
  Words (running m s) = All IsWord s
  Words (jumping d m s) = All IsWord s
  Words fault = Unit

  dup-Words : (d : Option ℕ) (m : R) (s : List ℕ) → All IsWord s → Words (run_dup d m s)
  dup-Words none m s h = tt
  dup-Words (some d) m s h = go d s h
    where
      go :
          (d : ℕ) (t : List ℕ)
          → All IsWord t
          → Words (elim (get_elem? t d) [ none ↦ fault | some x ↦ running m (x ∷ s) ])
      go d [] k = tt
      go zero (x ∷ t) k = (k.0, h)
      go (suc d) (x ∷ t) k = go d t k.1

  unary-Words :
      (f : ℕ → ℕ) (m : R) (s : List ℕ)
      → ((x : ℕ) → IsWord x → IsWord (f x))
      → All IsWord s
      → Words (run_unary f m s)
  unary-Words f m [] g h = tt
  unary-Words f m (x ∷ s) g h = (g x h.0, h.1)

  binary-Words :
      (f : ℕ → ℕ → ℕ) (m : R) (s : List ℕ)
      → ((x y : ℕ) → IsWord x → IsWord y → IsWord (f x y))
      → All IsWord s
      → Words (run_binary f m s)
  binary-Words f m [] g h = tt
  binary-Words f m (x ∷ []) g h = tt
  binary-Words f m (x ∷ y ∷ s) g h = (g x y h.0 h.1.0, h.1.1)

  swap1-Words : (m : R) (s : List ℕ) → All IsWord s → Words (run_swap1 m s)
  swap1-Words m [] h = tt
  swap1-Words m (x ∷ []) h = tt
  swap1-Words m (x ∷ y ∷ s) h = (h.1.0, (h.0, h.1.1))

  pop-Words : (m : R) (s : List ℕ) → All IsWord s → Words (run_pop m s)
  pop-Words m [] h = tt
  pop-Words m (x ∷ s) h = h.1

  jump-Words : (m : R) (s : List ℕ) → All IsWord s → Words (run_jump m s)
  jump-Words m [] h = tt
  jump-Words m (x ∷ s) h = h.1

  jumpi-Words : (m : R) (s : List ℕ) → All IsWord s → Words (run_jumpi m s)
  jumpi-Words m [] h = tt
  jumpi-Words m (d ∷ []) h = tt
  jumpi-Words m (d ∷ c ∷ s) h = elim (Bool-cases (c == 0)) [
    | inl e ↦ rw e h.1.1
    | inr e ↦ rw e h.1.1
  ]

  other-Words : (o : Option (R × List ℕ)) → Words (run_other o)
  other-Words none = tt
  other-Words (some r) = wrapped r.1

  if_Words : (b : Bool) (st su : State R) → Words st → Words su → Words (if b then st else su)
  if_Words true st su h k = h
  if_Words false st su h k = k

module _ {R : Type 0} (resolve : PushTarget → ℕ)
    (perform : Item → R → List ℕ → Option (R × List ℕ)) where
  unary_or-Words :
      (f : Option (ℕ → ℕ)) (st : State R) (m : R) (s : List ℕ)
      → UnaryWord f
      → All IsWord s
      → Words st
      → Words (elim f [ some g ↦ run_unary g m s | none ↦ st ])
  unfolding UnaryWord
  unary_or-Words none st m s g h k = k
  unary_or-Words (some f) st m s g h k = unary-Words f m s g h

  binary_or-Words :
      (f : Option (ℕ → ℕ → ℕ)) (st : State R) (m : R) (s : List ℕ)
      → WordFunction f
      → All IsWord s
      → Words st
      → Words (elim f [ some g ↦ run_binary g m s | none ↦ st ])
  unfolding WordFunction
  binary_or-Words none st m s g h k = k
  binary_or-Words (some f) st m s g h k = binary-Words f m s g h

  run_op-Words :
      (op : String) (m : R) (s : List ℕ) → All IsWord s → Words (run_op resolve perform op m s)
  unfolding run_op
  run_op-Words op m s h = if_Words (starts_with op "DUP") _ _ (dup-Words (dup_depth op) m s h) (
      binary_or-Words (binary op) _ m s (binary-WordFunction op) h (
        unary_or-Words (unary op) _ m s (unary-UnaryWord op) h (
          if_Words (op is "SWAP1") _ _ (swap1-Words m s h) (
            if_Words (op is "POP") _ _ (pop-Words m s h) (
              if_Words (op is "JUMP") _ _ (jump-Words m s h) (
                if_Words (op is "JUMPI") _ _ (jumpi-Words m s h)
                  (other-Words (perform (Item.standard_op op) m s))))))))

  run_label-Words : (l : String) (st : State R) → Words st → Words (run_label resolve perform l st)
  unfolding run_label
  run_label-Words l (running m s) h = h
  run_label-Words l (jumping d m s) h =
      if_Words (pushed resolve perform (PushTarget.label l) == d) (running m s) (jumping d m s) h h
  run_label-Words l fault h = h

  pushed-IsWord : (t : PushTarget) → IsWord (pushed resolve perform t)
  unfolding pushed
  pushed-IsWord (PushTarget.literal x) = mod-IsWord x
  pushed-IsWord t = mod-IsWord (resolve t)

  exec_item-Words :
      (item : Item) (st : State R) → Words st → Words (exec_item resolve perform item st)
  unfolding exec_item
  exec_item-Words (Item.global_label_declaration l) st h = run_label-Words l st h
  exec_item-Words (Item.local_label_declaration l) st h = run_label-Words l st h
  exec_item-Words (Item.push t) (running m s) h = (pushed-IsWord t, h)
  exec_item-Words (Item.standard_op op) (running m s) h = run_op-Words op m s h
  exec_item-Words (Item.macro_def n ps b) (running m s) h = h
  exec_item-Words item (running m s) h = other-Words (perform item m s)
  exec_item-Words item st h = h

  pub exec-Words :
      (code : List Item) (st : State R) → Words st → Words (exec resolve perform code st)
  unfolding exec
  exec-Words [] st h = h
  exec-Words (item ∷ code) st h =
      exec-Words code (exec_item resolve perform item st) (exec_item-Words item st h)
