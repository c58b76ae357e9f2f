-- ===== src/Kernel/Same.antt =====
-- The derived `PartialEq` of `Item`, in `evm_arithmetization/src/cpu/kernel/ast.rs`.
use Prim.Native.String.{String}
use text.Mathlib.TextPositions.{eq_refl}
use text.Mathlib.Text as Text
use bcw_zk_evm.Common.{
  suc, Bool, true, false, ◌&&◌, ◌==◌, ==_refl, List, [], ◌∷◌, length, ◌≡◌, refl, ap, arith,
}
use bcw_zk_evm.Kernel.{
  Item, Items, nil, cons, PushTarget, BytesTarget, StackPlaceholder, StackReplacement,
}

abbrev str_eq : String → String → Bool
str_eq s t = Text.◌==◌ s t

-- Two lists of one length, equal item by item.
abbrev pub eq_list : {A : Type 0} → (A → A → Bool) → List A → List A → Bool
eq_list eq [] [] = true
eq_list eq (x ∷ xs) (y ∷ ys) = eq x y && eq_list eq xs ys
eq_list eq _ _ = false

abbrev eq_target : PushTarget → PushTarget → Bool
eq_target (PushTarget.literal x) (PushTarget.literal y) = x == y
eq_target (PushTarget.label s) (PushTarget.label t) = str_eq s t
eq_target (PushTarget.macro_label s) (PushTarget.macro_label t) = str_eq s t
eq_target (PushTarget.macro_var s) (PushTarget.macro_var t) = str_eq s t
eq_target (PushTarget.constant s) (PushTarget.constant t) = str_eq s t
eq_target _ _ = false

abbrev eq_byte : BytesTarget → BytesTarget → Bool
eq_byte (BytesTarget.literal x) (BytesTarget.literal y) = x == y
eq_byte (BytesTarget.constant s) (BytesTarget.constant t) = str_eq s t
eq_byte _ _ = false

abbrev eq_replacement : StackReplacement → StackReplacement → Bool
eq_replacement (StackReplacement.literal x) (StackReplacement.literal y) = x == y
eq_replacement (StackReplacement.identifier s) (StackReplacement.identifier t) = str_eq s t
eq_replacement (StackReplacement.label s) (StackReplacement.label t) = str_eq s t
eq_replacement (StackReplacement.macro_label s) (StackReplacement.macro_label t) = str_eq s t
eq_replacement (StackReplacement.macro_var s) (StackReplacement.macro_var t) = str_eq s t
eq_replacement (StackReplacement.constant s) (StackReplacement.constant t) = str_eq s t
eq_replacement _ _ = false

abbrev eq_placeholder : StackPlaceholder → StackPlaceholder → Bool
eq_placeholder s t = str_eq s.name t.name && (s.size == t.size)

unfoldable mutual
  pub eq_item : Item → Item → Bool
  eq_item (Item.macro_def n ps b) (Item.macro_def m qs c) =
      str_eq n m && (eq_list str_eq ps qs && eq_items b c)
  eq_item (Item.macro_call n args) (Item.macro_call m others) =
      str_eq n m && eq_list eq_target args others
  eq_item (Item.repeat n b) (Item.repeat m c) = (n == m) && eq_items b c
  eq_item (Item.stack_manipulation xs rs) (Item.stack_manipulation ys ss) =
      eq_list eq_placeholder xs ys && eq_list eq_replacement rs ss
  eq_item (Item.global_label_declaration s) (Item.global_label_declaration t) = str_eq s t
  eq_item (Item.local_label_declaration s) (Item.local_label_declaration t) = str_eq s t
  eq_item (Item.macro_label_declaration s) (Item.macro_label_declaration t) = str_eq s t
  eq_item (Item.push x) (Item.push y) = eq_target x y
  eq_item (Item.prover_input f) (Item.prover_input g) = eq_list str_eq f.path g.path
  eq_item (Item.standard_op s) (Item.standard_op t) = str_eq s t
  eq_item (Item.bytes xs) (Item.bytes ys) = eq_list eq_byte xs ys
  eq_item (Item.jumptable ls) (Item.jumptable ms) = eq_list str_eq ls ms
  eq_item _ _ = false

  pub eq_items : Items → Items → Bool
  eq_items nil nil = true
  eq_items (cons x xs) (cons y ys) = eq_item x y && eq_items xs ys
  eq_items _ _ = false

-- `==` on code
unfoldable pub eq_code : List Item → List Item → Bool
unfolding eq_item
eq_code xs ys = eq_list eq_item xs ys

-- Both tests hold.
both : (a b : Bool) → a ≡ true → b ≡ true → (a && b) ≡ true
both a b h k = cc (h, k)

eq_list_refl :
    {A : Type 0} (eq : A → A → Bool)
    → ((a : A) → eq a a ≡ true)
    → (xs : List A) → eq_list eq xs xs ≡ true
eq_list_refl eq h [] = refl
eq_list_refl eq h (x ∷ xs) = both (eq x x) (eq_list eq xs xs) (h x) (eq_list_refl eq h xs)

eq_target_refl : (t : PushTarget) → eq_target t t ≡ true
eq_target_refl (PushTarget.literal x) = ==_refl x
eq_target_refl (PushTarget.label s) = eq_refl s
eq_target_refl (PushTarget.macro_label s) = eq_refl s
eq_target_refl (PushTarget.macro_var s) = eq_refl s
eq_target_refl (PushTarget.constant s) = eq_refl s

eq_byte_refl : (t : BytesTarget) → eq_byte t t ≡ true
eq_byte_refl (BytesTarget.literal x) = ==_refl x
eq_byte_refl (BytesTarget.constant s) = eq_refl s

eq_replacement_refl : (t : StackReplacement) → eq_replacement t t ≡ true
eq_replacement_refl (StackReplacement.literal x) = ==_refl x
eq_replacement_refl (StackReplacement.identifier s) = eq_refl s
eq_replacement_refl (StackReplacement.label s) = eq_refl s
eq_replacement_refl (StackReplacement.macro_label s) = eq_refl s
eq_replacement_refl (StackReplacement.macro_var s) = eq_refl s
eq_replacement_refl (StackReplacement.constant s) = eq_refl s

eq_placeholder_refl : (s : StackPlaceholder) → eq_placeholder s s ≡ true
eq_placeholder_refl s =
    both (str_eq s.name s.name) (s.size == s.size) (eq_refl s.name) (==_refl s.size)

mutual
  unfolding eq_item

  eq_item_refl : (x : Item) → eq_item x x ≡ true
  eq_item_refl (Item.macro_def n ps b) =
      both (str_eq n n) (eq_list str_eq ps ps && eq_items b b) (eq_refl n) (
        both (eq_list str_eq ps ps) (eq_items b b) (eq_list_refl str_eq eq_refl ps)
          (eq_items_refl b))
  eq_item_refl (Item.macro_call n args) =
      both (str_eq n n) (eq_list eq_target args args) (eq_refl n)
        (eq_list_refl eq_target eq_target_refl args)
  eq_item_refl (Item.repeat n b) = both (n == n) (eq_items b b) (==_refl n) (eq_items_refl b)
  eq_item_refl (Item.stack_manipulation xs rs) =
      both (eq_list eq_placeholder xs xs) (eq_list eq_replacement rs rs)
        (eq_list_refl eq_placeholder eq_placeholder_refl xs)
        (eq_list_refl eq_replacement eq_replacement_refl rs)
  eq_item_refl (Item.global_label_declaration s) = eq_refl s
  eq_item_refl (Item.local_label_declaration s) = eq_refl s
  eq_item_refl (Item.macro_label_declaration s) = eq_refl s
  eq_item_refl (Item.push x) = eq_target_refl x
  eq_item_refl (Item.prover_input f) = eq_list_refl str_eq eq_refl f.path
  eq_item_refl (Item.standard_op s) = eq_refl s
  eq_item_refl (Item.bytes xs) = eq_list_refl eq_byte eq_byte_refl xs
  eq_item_refl (Item.jumptable ls) = eq_list_refl str_eq eq_refl ls

  eq_items_refl : (xs : Items) → eq_items xs xs ≡ true
  eq_items_refl nil = refl
  eq_items_refl (cons x xs) =
      both (eq_item x x) (eq_items xs xs) (eq_item_refl x) (eq_items_refl xs)

pub eq_code_refl : (xs : List Item) → eq_code xs xs ≡ true
unfolding eq_code
eq_code_refl xs = eq_list_refl eq_item eq_item_refl xs

second : (a b : Bool) → (a && b) ≡ true → b ≡ true
second true b h = h
second false b h = absurd (ground arith)

-- Code found equal has as many items.
pub eq_code-length : (xs ys : List Item) → eq_code xs ys ≡ true → length xs ≡ length ys
unfolding eq_code
eq_code-length [] [] h = refl
eq_code-length [] (y ∷ ys) h = absurd (ground arith)
eq_code-length (x ∷ xs) [] h = absurd (ground arith)
eq_code-length (x ∷ xs) (y ∷ ys) h =
    ap suc (eq_code-length xs ys (second (eq_item x y) (eq_code xs ys) h))
