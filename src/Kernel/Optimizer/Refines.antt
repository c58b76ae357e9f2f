-- ===== src/Kernel/Optimizer/Refines.antt =====
-- When new code may stand for old, and that it may stand for it within more code.
use Prim.Native.String.{String}
use bcw_zk_evm.Common.{
  ℕ, ◌<◌, List, [], ◌∷◌, ◌++◌, All, All-append, length, Option, some, ◌≡◌, ◌≢◌, refl, ap, sym, ◌∙◌,
  ◌⊎◌, inl, inr,
}
use bcw_zk_evm.Kernel.{Item, PushTarget}
use bcw_zk_evm.Kernel.Windows.{replace_windows, rounds_for}
use bcw_zk_evm.Kernel.Windows.Preserves.{replace_windows-Rel}
use bcw_zk_evm.Kernel.Machine.{State, fault, exec, exec_item, exec-append, IsWord}
use bcw_zk_evm.Kernel.Machine.Words.{Words, exec-Words}

-- A literal is a word, and the item is not `BYTE`.
abbrev pub IsSound : Item → Type 0
IsSound (Item.push (PushTarget.literal x)) = IsWord x
IsSound (Item.standard_op op) = ◌≢◌ {A = String} op "BYTE"
IsSound _ = Unit

module _ {ℓ κ} {A : Type ℓ} (P : A → Type κ) where
  pub All-left : (xs ys : List A) → All P (xs ++ ys) → All P xs
  All-left [] ys h = tt
  All-left (x ∷ xs) ys h = (h.0, All-left xs ys h.1)

  pub All-right : (xs ys : List A) → All P (xs ++ ys) → All P ys
  All-right [] ys h = h
  All-right (x ∷ xs) ys h = All-right xs ys h.1

module _ {R : Type 0} (resolve : PushTarget → ℕ)
    (perform : Item → R → List ℕ → Option (R × List ℕ)) where
  -- From any state whose stack holds words, the old code faults, or the new ends where it does.
  unfoldable pub Refines : List Item → List Item → Type 0
  unfolding exec
  Refines code new =
      (st : State R)
      → Words st
      → (exec resolve perform code st ≡ fault)
        ⊎ (exec resolve perform code st ≡ exec resolve perform new st)

  -- The same for sound code, which stays sound.
  abbrev pub Becomes : List Item → List Item → Type 0
  Becomes code new = All IsSound code → All IsSound new × Refines code new

  exec-fault : (code : List Item) → exec resolve perform code fault ≡ fault
  unfolding exec exec_item
  exec-fault [] = refl
  exec-fault (Item.global_label_declaration l ∷ code) = exec-fault code
  exec-fault (item ∷ code) = exec-fault code

  pub Becomes-refl : (code : List Item) → Becomes code code
  unfolding Refines
  Becomes-refl code sound = (sound, λ st h. inr refl)

  pub Becomes-trans : (a b c : List Item) → Becomes a b → Becomes b c → Becomes a c
  unfolding Refines
  Becomes-trans a b c f g sound =
      let first = f sound in
      let then_ = g first.0 in
      (
        then_.0,
        λ st h. elim (first.1 st h) [
          | inl e ↦ inl e
          | inr e ↦ elim (then_.1 st h) [ inl e' ↦ inl (e ∙ e') | inr e' ↦ inr (e ∙ e') ]
        ],
      )

  -- What a run of the middle does to a run of the whole.
  exec-window :
      (xs code ys : List Item) (st : State R)
      → exec resolve perform (xs ++ (code ++ ys)) st
        ≡ exec resolve perform ys (exec resolve perform code (exec resolve perform xs st))
  exec-window xs code ys st =
      exec-append resolve perform xs (code ++ ys) st
      ∙ exec-append resolve perform code ys (exec resolve perform xs st)

  Refines-window :
      (xs code new ys : List Item)
      → Refines code new
      → Refines (xs ++ (code ++ ys)) (xs ++ (new ++ ys))
  unfolding Refines
  Refines-window xs code new ys f st h =
      elim (f (exec resolve perform xs st) (exec-Words resolve perform xs st h)) [
        | inl e ↦ inl (exec-window xs code ys st ∙ ap (exec resolve perform ys) e ∙ exec-fault ys)
        | inr e ↦ inr (
            exec-window xs code ys st
            ∙ ap (exec resolve perform ys) e
            ∙ sym (exec-window xs new ys st))
      ]

  Becomes-window :
      (xs code new ys : List Item)
      → Becomes code new
      → Becomes (xs ++ (code ++ ys)) (xs ++ (new ++ ys))
  Becomes-window xs code new ys f sound =
      let tail = All-right IsSound xs (code ++ ys) sound in
      let middle = f (All-left IsSound code ys tail) in
      (
        All-append IsSound xs (new ++ ys) (All-left IsSound xs (code ++ ys) sound)
            (All-append IsSound new ys middle.0 (All-right IsSound code ys tail)),
        Refines-window xs code new ys middle.1,
      )

  -- A shorter replacement that may stand for its window.
  abbrev pub MayReplace : List Item → List Item → Type 0
  MayReplace window new = (length new < length window) × Becomes window new

  -- A pass whose replacements may stand for their windows gives code that may stand for all of it.
  pub replace_windows-Becomes :
      (w : ℕ) (maybe_replace : List Item → Option (Option (List Item)))
      → ((window new : List Item) → maybe_replace window ≡ some (some new) → MayReplace window new)
      → (code out : List Item) → replace_windows w maybe_replace (rounds_for w code) code ≡ some out
      → Becomes code out
  replace_windows-Becomes w maybe_replace f code =
      replace_windows-Rel w maybe_replace Becomes Becomes-refl Becomes-trans
        (λ xs window new ys size e. Becomes-window xs window new ys (f window new e).1)
        (rounds_for w code) code
