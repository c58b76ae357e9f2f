-- ===== src/Kernel/Assembler/Sizes.antt =====
-- The two passages of the assembler measure alike.
use Prim.Native.String.{String}
use bcw_zk_evm.Common.{
  some_inj, bound, bound_known, ℕ, suc, ◌+◌, ◌*◌, ◌%◌, Bool, List, [], ◌∷◌, ◌++◌, length,
  length-append, some, ◌>>◌, assert, ◌≡◌, ap, sym, ◌∙◌, subst, arith, ==_iff,
}
use bcw_zk_evm.Evm.Decode.{get_push_opcode}
use bcw_zk_evm.Kernel.{Item, PushTarget, BytesTarget}
use bcw_zk_evm.Kernel.Cost.{u256_to_trimmed_be_bytes, bytes_below, bytes_per_offset}
use bcw_zk_evm.Kernel.Cost.Laws.{length-trimmed, length-bytes_below}
use bcw_zk_evm.Kernel.Opcodes.{get_opcode}
use bcw_zk_evm.Kernel.Assembler.{
  Found, insert_new, advance, find_label, find_labels, look_up_label, target_bytes, bytes_of,
  jumptable_bytes, item_bytes, assemble_file, find_all, assemble_all, assemble, push_target_size,
  start_of_code,
}

module _ (to_uppercase : String → String) (local_labels global_labels : List (String × ℕ)) where
  length-look_up_label :
      (label : String) (bytes : List ℕ)
      → look_up_label label local_labels global_labels ≡ some bytes
      → length bytes ≡ bytes_per_offset
  unfolding look_up_label
  length-look_up_label label bytes e =
      let found = bound _ (λ offset. some (bytes_below bytes_per_offset offset)) bytes e in
      ap length (sym (some_inj found.2)) ∙ length-bytes_below bytes_per_offset found.0

  length-target_bytes :
      (target : PushTarget) (bytes : List ℕ) (size : ℕ)
      → target_bytes to_uppercase local_labels global_labels target ≡ some bytes
      → push_target_size target ≡ some size
      → length bytes ≡ size
  unfolding target_bytes push_target_size
  length-target_bytes (PushTarget.literal n) bytes size e f =
      let small : length (u256_to_trimmed_be_bytes n) % 256 ≡ length (u256_to_trimmed_be_bytes n) =
        omega (arith, length-trimmed n) in
      ap length (sym (some_inj e)) ∙ sym small ∙ some_inj f
  length-target_bytes (PushTarget.label l) bytes size e f =
      length-look_up_label l bytes e ∙ some_inj f
  length-target_bytes (PushTarget.macro_label l) bytes size e f = absurd (ground arith)
  length-target_bytes (PushTarget.macro_var l) bytes size e f = absurd (ground arith)
  length-target_bytes (PushTarget.constant l) bytes size e f = absurd (ground arith)

  length-bytes_of :
      (targets : List BytesTarget) (bytes : List ℕ)
      → bytes_of to_uppercase local_labels global_labels targets ≡ some bytes
      → length bytes ≡ length targets
  unfolding bytes_of
  length-bytes_of [] bytes e = ap length (sym (some_inj e))
  length-bytes_of (BytesTarget.literal n ∷ targets) bytes e =
      let rest = bound (bytes_of to_uppercase local_labels global_labels targets) _ bytes e in
      ap length (sym (some_inj rest.2)) ∙ ap suc (length-bytes_of targets rest.0 rest.1)
  length-bytes_of (BytesTarget.constant c ∷ targets) bytes e = absurd (ground arith)

  length-jumptable_bytes :
      (labels : List String) (bytes : List ℕ)
      → jumptable_bytes to_uppercase local_labels global_labels labels ≡ some bytes
      → length bytes ≡ length labels * bytes_per_offset
  unfolding jumptable_bytes
  length-jumptable_bytes [] bytes e = ap length (sym (some_inj e)) ∙ omega arith
  length-jumptable_bytes (label ∷ labels) bytes e =
      let first = bound (look_up_label label local_labels global_labels) _ bytes e in
      let rest =
        bound (jumptable_bytes to_uppercase local_labels global_labels labels) _ bytes first.2 in
      ap length (sym (some_inj rest.2))
      ∙ omega (
        arith,
        length-append first.0 rest.0,
        length-look_up_label label first.0 first.1,
        length-jumptable_bytes labels rest.0 rest.1,
      )

  -- Both passages count an item alike.
  item_size :
      (item : Item) (found after : Found) (bytes : List ℕ)
      → find_label item found ≡ some after
      → item_bytes to_uppercase local_labels global_labels item ≡ some bytes
      → after.offset ≡ found.offset + length bytes
  unfolding find_label item_bytes advance
  item_size (Item.global_label_declaration l) found after bytes e f =
      let labels = bound (insert_new l found.offset found.global_labels) _ after e in
      sym (ap (λ (a : Found). a.offset) (some_inj labels.2)) ∙ omega (arith, ap length (some_inj f))
  item_size (Item.local_label_declaration l) found after bytes e f =
      let labels = bound (insert_new l found.offset found.local_labels) _ after e in
      sym (ap (λ (a : Found). a.offset) (some_inj labels.2)) ∙ omega (arith, ap length (some_inj f))
  item_size (Item.push target) found after bytes e f =
      let size = bound (push_target_size target) _ after e in
      let pushed = bound (target_bytes to_uppercase local_labels global_labels target) _ bytes f in
      let opcode = bound (get_push_opcode (length pushed.0 % 256)) _ bytes pushed.2 in
      omega (
        arith,
        ap (λ (a : Found). a.offset) (some_inj size.2),
        ap length (some_inj opcode.2),
        length-target_bytes target pushed.0 size.0 pushed.1 size.1,
      )
  item_size (Item.prover_input p) found after bytes e f =
      let opcode = bound (get_opcode to_uppercase "PROVER_INPUT") _ bytes f in
      omega (arith, ap (λ (a : Found). a.offset) (some_inj e), ap length (some_inj opcode.2))
  item_size (Item.standard_op op) found after bytes e f =
      let opcode = bound (get_opcode to_uppercase op) _ bytes f in
      omega (arith, ap (λ (a : Found). a.offset) (some_inj e), ap length (some_inj opcode.2))
  item_size (Item.bytes targets) found after bytes e f =
      omega (arith, ap (λ (a : Found). a.offset) (some_inj e), length-bytes_of targets bytes f)
  item_size (Item.jumptable labels) found after bytes e f =
      omega
        (arith, ap (λ (a : Found). a.offset) (some_inj e), length-jumptable_bytes labels bytes f)
  item_size (Item.macro_def n ps b) found after bytes e f = absurd (ground arith)
  item_size (Item.macro_call n args) found after bytes e f = absurd (ground arith)
  item_size (Item.repeat n b) found after bytes e f = absurd (ground arith)
  item_size (Item.stack_manipulation xs ys) found after bytes e f = absurd (ground arith)
  item_size (Item.macro_label_declaration l) found after bytes e f = absurd (ground arith)

  pub file_size :
      (body : List Item) (found after : Found) (code out : List ℕ)
      → find_labels body found ≡ some after
      → assemble_file to_uppercase local_labels global_labels body code ≡ some out
      → after.offset + length code ≡ found.offset + length out
  unfolding find_labels assemble_file
  file_size [] found after code out e f =
      omega (arith, ap (λ (a : Found). a.offset) (some_inj e), ap length (some_inj f))
  file_size (item ∷ body) found after code out e f =
      let next = bound (find_label item found) _ after e in
      let bytes = bound (item_bytes to_uppercase local_labels global_labels item) _ out f in
      omega (
        arith,
        item_size item found next.0 bytes.0 next.1 bytes.1,
        length-append code bytes.0,
        file_size body next.0 after (code ++ bytes.0) out next.2 bytes.2,
      )

all_size :
    (to_uppercase : String → String) (files : List (List Item)) (found : Found)
    (after : Found × List (List (String × ℕ))) (global_labels : List (String × ℕ))
    (code out : List ℕ)
    → find_all files found ≡ some after
    → assemble_all to_uppercase files after.1 global_labels code ≡ some out
    → after.0.offset + length code ≡ found.offset + length out
unfolding find_all assemble_all
all_size to_uppercase [] found after global_labels code out e f =
    let g =
      subst (λ a. assemble_all to_uppercase [] a.1 global_labels code ≡ some out) (sym (some_inj e))
        f in
    omega (
      arith,
      ap (λ (a : Found × List (List (String × ℕ))). a.0.offset) (some_inj e),
      ap length (some_inj g),
    )
all_size to_uppercase (file ∷ files) found after global_labels code out e f =
    let one = bound (find_labels file (record found { local_labels = [] })) _ after e in
    let rest = bound (find_all files one.0) _ after one.2 in
    let g =
      subst (λ a. assemble_all to_uppercase (file ∷ files) a.1 global_labels code ≡ some out)
        (sym (some_inj rest.2)) f in
    let first =
      bound (assemble_file to_uppercase one.0.local_labels global_labels file code) _ out g in
    omega (
      arith,
      ap (λ (a : Found × List (List (String × ℕ))). a.0.offset) (some_inj rest.2),
      file_size to_uppercase one.0.local_labels global_labels file
          (record found { local_labels = [] }) one.0 code first.0 one.1 first.1,
      all_size to_uppercase files one.0 rest.0 global_labels first.0 out rest.1 first.2,
    )

-- Where both passages over the files succeed, so does `assemble`: its check that the length of the
-- code is the offset that the first passage reached never fails.
pub assemble-offset :
    (to_uppercase : String → String) (files : List (List Item))
    (after : Found × List (List (String × ℕ))) (code : List ℕ)
    → find_all files start_of_code ≡ some after
    → assemble_all to_uppercase files after.1 after.0.global_labels [] ≡ some code
    → assemble to_uppercase files ≡ some (code, after.0)
unfolding assemble
assemble-offset to_uppercase files after code e f =
    let size : length code ≡ after.0.offset =
      omega (
        arith,
        all_size to_uppercase files start_of_code after after.0.global_labels [] code e f,
      ) in
    bound_known _ _ after e
    ∙ bound_known _ _ code f
    ∙ ap (λ (b : Bool). assert b >> some (code, after.0))
        ((==_iff (length code) after.0.offset).1 size)
