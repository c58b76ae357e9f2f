-- ===== src/Kernel/Assembler.antt =====
-- `evm_arithmetization/src/cpu/kernel/assembler.rs`: labels get their offsets in a first passage over
-- the expanded files, and bytes are written in a second.
pub mod Sizes
pub mod Labels
pub mod Tests
use Prim.Native.String.{String}
use bcw_zk_evm.Common.{
  ℕ, zero, suc, ◌+◌, ◌*◌, ◌/◌, ◌%◌, ◌^◌, ◌==◌, Bool, List, [], ◌∷◌, ◌++◌, length, Option, none,
  some, ◌>>=◌, ◌>>◌, assert,
}
use bcw_zk_evm.Evm.Decode.{get_push_opcode}
use bcw_zk_evm.Kernel.{Item, PushTarget, BytesTarget, StackReplacement, ProverInputFn}
use bcw_zk_evm.Kernel.Cost.{u256_to_trimmed_be_bytes, bytes_below, bytes_per_offset}
use bcw_zk_evm.Kernel.Opcodes.{lookup, get_opcode}

-- `push_target_size`, with its cast to `u8`; `none` is a panic, here and below.
unfoldable pub push_target_size : PushTarget → Option ℕ
unfolding u256_to_trimmed_be_bytes
push_target_size (PushTarget.literal n) = some (length (u256_to_trimmed_be_bytes n) % 256)
push_target_size (PushTarget.label l) = some bytes_per_offset
push_target_size _ = none

-- What `find_labels` reads and writes. A map is its insertions, the last first.
pub record Found : Type 0 where
  pub offset : ℕ
  pub global_labels : List (String × ℕ)
  pub prover_inputs : List (ℕ × ProverInputFn)
  pub local_labels : List (String × ℕ)

-- An insertion that panics on a key that is there.
unfoldable pub insert_new : String → ℕ → List (String × ℕ) → Option (List (String × ℕ))
unfolding lookup
insert_new label offset labels = elim (lookup label labels) [
  | none ↦ some ((label, offset) ∷ labels)
  | some old ↦ none
]

unfoldable pub advance : ℕ → Found → Found
advance n found = record found { offset = found.offset + n }

unfoldable pub find_label : Item → Found → Option Found
unfolding push_target_size insert_new advance
find_label (Item.macro_def name params items) found = none
find_label (Item.macro_call name args) found = none
find_label (Item.repeat count items) found = none
find_label (Item.stack_manipulation before after) found = none
find_label (Item.macro_label_declaration label) found = none
find_label (Item.global_label_declaration label) found =
    insert_new label found.offset found.global_labels >>= λ labels.
    some (record found { global_labels = labels })
find_label (Item.local_label_declaration label) found =
    insert_new label found.offset found.local_labels >>= λ labels.
    some (record found { local_labels = labels })
find_label (Item.push target) found =
    push_target_size target >>= λ size. some (advance (1 + size) found)
find_label (Item.prover_input f) found =
    some (advance 1 (record found { prover_inputs = (found.offset, f) ∷ found.prover_inputs }))
find_label (Item.standard_op op) found = some (advance 1 found)
find_label (Item.bytes targets) found = some (advance (length targets) found)
find_label (Item.jumptable labels) found = some (advance (length labels * bytes_per_offset) found)

-- From the state at the start of a file, where no local label is known.
unfoldable pub find_labels : List Item → Found → Option Found
unfolding find_label
find_labels [] found = some found
find_labels (item ∷ body) found = find_label item found >>= find_labels body

-- The bytes of the offset with numbers below 3, the highest first.
unfoldable pub look_up_label : String → List (String × ℕ) → List (String × ℕ) → Option (List ℕ)
unfolding lookup bytes_below
look_up_label label local_labels global_labels =
    (elim (lookup label local_labels) [
      | some offset ↦ some offset
      | none ↦ lookup label global_labels
    ])
    >>= λ offset. some (bytes_below bytes_per_offset offset)

module _ (to_uppercase : String → String) (local_labels global_labels : List (String × ℕ)) where
  unfoldable pub target_bytes : PushTarget → Option (List ℕ)
  unfolding look_up_label u256_to_trimmed_be_bytes
  target_bytes (PushTarget.literal n) = some (u256_to_trimmed_be_bytes n)
  target_bytes (PushTarget.label label) = look_up_label label local_labels global_labels
  target_bytes _ = none

  unfoldable pub bytes_of : List BytesTarget → Option (List ℕ)
  bytes_of [] = some []
  bytes_of (BytesTarget.literal n ∷ targets) = bytes_of targets >>= λ rest. some (n ∷ rest)
  bytes_of (BytesTarget.constant c ∷ targets) = none

  unfoldable pub jumptable_bytes : List String → Option (List ℕ)
  unfolding look_up_label
  jumptable_bytes [] = some []
  jumptable_bytes (label ∷ labels) = look_up_label label local_labels global_labels >>= λ bytes.
      jumptable_bytes labels >>= λ rest. some (bytes ++ rest)

  -- What an item appends to the code.
  unfoldable pub item_bytes : Item → Option (List ℕ)
  unfolding target_bytes bytes_of jumptable_bytes get_push_opcode get_opcode
  item_bytes (Item.global_label_declaration label) = some []
  item_bytes (Item.local_label_declaration label) = some []
  item_bytes (Item.push target) = target_bytes target >>= λ bytes.
      get_push_opcode (length bytes % 256) >>= λ opcode. some (opcode ∷ bytes)
  item_bytes (Item.prover_input f) =
      get_opcode to_uppercase "PROVER_INPUT" >>= λ opcode. some (opcode ∷ [])
  item_bytes (Item.standard_op op) = get_opcode to_uppercase op >>= λ opcode. some (opcode ∷ [])
  item_bytes (Item.bytes targets) = bytes_of targets
  item_bytes (Item.jumptable labels) = jumptable_bytes labels
  item_bytes _ = none

  unfoldable pub assemble_file : List Item → List ℕ → Option (List ℕ)
  unfolding item_bytes
  assemble_file [] code = some code
  assemble_file (item ∷ body) code = item_bytes item >>= λ bytes. assemble_file body (code ++ bytes)

-- The first passage over the files: the state at its end, and the local labels of each file.
unfoldable pub find_all : List (List Item) → Found → Option (Found × List (List (String × ℕ)))
unfolding find_labels
find_all [] found = some (found, [])
find_all (file ∷ files) found = find_labels file (record found { local_labels = [] }) >>= λ after.
    find_all files after >>= λ rest. some (rest.0, after.local_labels ∷ rest.1)

-- The second passage, over each file and its labels.
unfoldable pub assemble_all :
    (String → String)
    → List (List Item)
    → List (List (String × ℕ))
    → List (String × ℕ)
    → List ℕ
    → Option (List ℕ)
unfolding assemble_file
assemble_all to_uppercase (file ∷ files) (local_labels ∷ rest) global_labels code =
    assemble_file to_uppercase local_labels global_labels file code
    >>= assemble_all to_uppercase files rest global_labels
assemble_all to_uppercase _ _ global_labels code = some code

abbrev pub start_of_code : Found
start_of_code = record { offset = 0; global_labels = []; prover_inputs = []; local_labels = [] }

-- `assemble`, of files that are expanded and optimized: the code, and what was found.
unfoldable pub assemble : (String → String) → List (List Item) → Option (List ℕ × Found)
unfolding find_all assemble_all
assemble to_uppercase files = find_all files start_of_code >>= λ found.
    assemble_all to_uppercase files found.1 found.0.global_labels [] >>= λ code.
    (assert (length code == found.0.offset) >> some (code, found.0))
