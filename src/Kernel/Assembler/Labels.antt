-- ===== src/Kernel/Assembler/Labels.antt =====
-- The offset that the assembler records for a label is the place of its declaration in the code.
use Prim.Native.String.{String}
use text.Mathlib.TextEquality.{eq_iff}
use text.Mathlib.TextPositions.{eq_refl}
use bcw_zk_evm.Common.{
  some_inj, bound, ℕ, ◌%◌, ◌^◌, List, [], ◌∷◌, ◌++◌, length, Option, none, some, ◌>>=◌, ◌≡◌, refl,
  ap, sym, ◌∙◌, subst, arith, Bool-cases, inl, inr,
}
use bcw_zk_evm.Kernel.{Item}
use bcw_zk_evm.Kernel.Cost.{bytes_per_offset}
use bcw_zk_evm.Kernel.Cost.Laws.{be_value, be_value-bytes_below}
use bcw_zk_evm.Kernel.Opcodes.{lookup}
use bcw_zk_evm.Kernel.Optimizer.{◌is◌}
use bcw_zk_evm.Kernel.Assembler.{
  Found, insert_new, advance, find_label, find_labels, look_up_label, assemble_file,
  push_target_size,
}
use bcw_zk_evm.Kernel.Assembler.Sizes.{file_size}

-- What is in a map stays there.
Extends : List (String × ℕ) → List (String × ℕ) → Type 0
Extends labels more = (l : String) (o : ℕ) → lookup l labels ≡ some o → lookup l more ≡ some o

-- An insertion that succeeds found no entry, and adds one.
inserted :
    (l : String) (o : ℕ) (labels more : List (String × ℕ))
    → insert_new l o labels ≡ some more
    → (lookup l labels ≡ none) × ((l, o) ∷ labels ≡ more)
unfolding insert_new
inserted l o labels more e = go (lookup l labels) e
  where
    go :
        (old : Option ℕ)
        → (elim old [ none ↦ some ((l, o) ∷ labels) | some _ ↦ none ]) ≡ some more
        → (old ≡ none) × ((l, o) ∷ labels ≡ more)
    go none f = (refl, some_inj f)
    go (some old) f = absurd (ground arith)

insert_new-Extends :
    (l : String) (o : ℕ) (labels more : List (String × ℕ))
    → insert_new l o labels ≡ some more
    → Extends labels more
unfolding Extends lookup
insert_new-Extends l o labels more e k p h =
    let added = inserted l o labels more e in
    subst (λ m. lookup k m ≡ some p) added.1
      (elim (Bool-cases (l is k)) [
        | inl same ↦
            absurd (no_entry (sym added.0 ∙ ap (λ k. lookup k labels) ((eq_iff l k).0 same) ∙ h))
        | inr other ↦ rw other h
      ])
  where
    no_entry : {p : ℕ} → ◌≡◌ {A = Option ℕ} none (some p) → ⊥
    no_entry f = ground arith

insert_new-lookup :
    (l : String) (o : ℕ) (labels more : List (String × ℕ))
    → insert_new l o labels ≡ some more
    → lookup l more ≡ some o
unfolding lookup
insert_new-lookup l o labels more e =
    subst (λ m. lookup l m ≡ some o) (inserted l o labels more e).1 (rw (eq_refl l) refl)

-- What an item has made of the labels, where its result is known.
kept :
    (labels : List (String × ℕ)) {next after : Found}
    → ◌≡◌ {A = Option Found} (some next) (some after)
    → Extends labels next.local_labels
    → Extends labels after.local_labels
kept labels e f = subst (λ (a : Found). Extends labels a.local_labels) (some_inj e) f

-- An item only adds labels.
find_label-Extends :
    (item : Item) (found after : Found)
    → find_label item found ≡ some after
    → Extends found.local_labels after.local_labels
unfolding find_label advance Extends
find_label-Extends (Item.global_label_declaration l) found after e =
    let labels = bound (insert_new l found.offset found.global_labels) _ after e in
    kept _ labels.2 (λ k o h. h)
find_label-Extends (Item.local_label_declaration l) found after e =
    let labels = bound (insert_new l found.offset found.local_labels) _ after e in
    kept _ labels.2 (insert_new-Extends l found.offset found.local_labels labels.0 labels.1)
find_label-Extends (Item.push target) found after e =
    let size = bound (push_target_size target) _ after e in kept _ size.2 (λ k o h. h)
find_label-Extends (Item.prover_input p) found after e = kept _ e (λ k o h. h)
find_label-Extends (Item.standard_op op) found after e = kept _ e (λ k o h. h)
find_label-Extends (Item.bytes targets) found after e = kept _ e (λ k o h. h)
find_label-Extends (Item.jumptable labels) found after e = kept _ e (λ k o h. h)
find_label-Extends (Item.macro_def n ps b) found after e = absurd (ground arith)
find_label-Extends (Item.macro_call n args) found after e = absurd (ground arith)
find_label-Extends (Item.repeat n b) found after e = absurd (ground arith)
find_label-Extends (Item.stack_manipulation xs ys) found after e = absurd (ground arith)
find_label-Extends (Item.macro_label_declaration l) found after e = absurd (ground arith)

find_labels-Extends :
    (body : List Item) (found after : Found)
    → find_labels body found ≡ some after
    → Extends found.local_labels after.local_labels
unfolding find_labels Extends
find_labels-Extends [] found after e = kept _ e (λ k o h. h)
find_labels-Extends (item ∷ body) found after e =
    let next = bound (find_label item found) _ after e in
    λ k o h.
      find_labels-Extends body next.0 after next.2 k o
        (find_label-Extends item found next.0 next.1 k o h)

chain_split :
    {A B C : Type 0} (o : Option A) (f : A → Option C) (g : A → Option B) (h : B → Option C)
    → ((a : A) → f a ≡ (g a >>= h))
    → (o >>= f) ≡ ((o >>= g) >>= h)
chain_split none f g h e = refl
chain_split (some a) f g h e = e a

find_labels-append :
    (xs ys : List Item) (found : Found)
    → find_labels (xs ++ ys) found ≡ (find_labels xs found >>= find_labels ys)
unfolding find_labels
find_labels-append [] ys found = refl
find_labels-append (x ∷ xs) ys found =
    chain_split (find_label x found) (find_labels (xs ++ ys)) (find_labels xs) (find_labels ys)
      (λ next. find_labels-append xs ys next)

-- The offset that is found for a label is where its declaration stands.
find_labels-declared :
    (to_uppercase : String → String) (l : String) (xs ys : List Item) (found after : Found)
    (locals globals : List (String × ℕ)) (code out : List ℕ)
    → found.offset ≡ length code
    → find_labels (xs ++ (Item.local_label_declaration l ∷ ys)) found ≡ some after
    → assemble_file to_uppercase locals globals xs code ≡ some out
    → lookup l after.local_labels ≡ some (length out)
unfolding find_labels find_label Extends
find_labels-declared to_uppercase l xs ys found after locals globals code out h e f =
    let split = sym (find_labels-append xs (Item.local_label_declaration l ∷ ys) found) ∙ e in
    let before = bound (find_labels xs found) _ after split in
    let at =
      bound (find_label (Item.local_label_declaration l) before.0) (find_labels ys) after
        before.2 in
    let size = file_size to_uppercase locals globals xs found before.0 code out before.1 f in
    let labels = bound (insert_new l before.0.offset before.0.local_labels) _ at.0 at.1 in
    let here : lookup l at.0.local_labels ≡ some (length out) =
      subst (λ (a : Found). lookup l a.local_labels ≡ some (length out)) (some_inj labels.2)
        (insert_new-lookup l before.0.offset before.0.local_labels labels.0 labels.1
          ∙ ap some (omega arith)) in
    find_labels-Extends ys at.0 after at.2 l (length out) here

-- A file that declares a local label `l` after the items `xs`, which assemble from the code so far to
-- `out`, has the label at the end of `out`: the three bytes that stand for the label in the file spell
-- the length of `out`, as a number below 2 to the 24, if `find_labels` accepts the file and begins at
-- the end of the code so far.
pub look_up_label-declared :
    (to_uppercase : String → String) (l : String) (xs ys : List Item) (found after : Found)
    (locals globals : List (String × ℕ)) (code out : List ℕ)
    → found.offset ≡ length code
    → find_labels (xs ++ (Item.local_label_declaration l ∷ ys)) found ≡ some after
    → assemble_file to_uppercase locals globals xs code ≡ some out
    → (look_up_label l after.local_labels globals >>= λ bytes. some (be_value bytes))
      ≡ some (length out % 2 ^ 24)
unfolding look_up_label
look_up_label-declared to_uppercase l xs ys found after locals globals code out h e f =
    rw (find_labels-declared to_uppercase l xs ys found after locals globals code out h e f)
      (ap some (be_value-bytes_below bytes_per_offset (length out)))
