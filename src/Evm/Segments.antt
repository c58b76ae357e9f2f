-- ===== src/Evm/Segments.antt =====
-- `evm_arithmetization/src/memory/segments.rs`: the memory segments. A segment's value in the source
-- is its number shifted by 32 bits; `var_name`, the names in kernel assembly, is left out.
use bcw_zk_evm.Common.{ℕ, ◌*◌, ◌^◌, List, [], ◌∷◌}
use bcw_zk_evm.Word.{◌>>>◌}

pub data Segment : Type 0 where
  code stack main_memory calldata returndata global_metadata context_metadata : Segment
  kernel_general kernel_account_code txn_fields txn_data rlp_raw trie_data shift_table : Segment
  jumpdest_bits ecdsa_table bn_wnaf_a bn_wnaf_b bn_table_q bn_pairing accessed_addresses : Segment
  accessed_storage_keys self_destruct_list txn_bloom global_block_bloom logs logs_data journal :
      Segment
  journal_data journal_checkpoints touched_addresses context_checkpoints block_hashes : Segment

abbrev pub segment_scaling_factor : ℕ
segment_scaling_factor = 32

-- `COUNT`
abbrev pub count : ℕ
count = 33

-- `*self as usize`
unfoldable pub as_usize : Segment → ℕ
as_usize Segment.code = 0
as_usize Segment.stack = 1 * 2 ^ 32
as_usize Segment.main_memory = 2 * 2 ^ 32
as_usize Segment.calldata = 3 * 2 ^ 32
as_usize Segment.returndata = 4 * 2 ^ 32
as_usize Segment.global_metadata = 5 * 2 ^ 32
as_usize Segment.context_metadata = 6 * 2 ^ 32
as_usize Segment.kernel_general = 7 * 2 ^ 32
as_usize Segment.kernel_account_code = 8 * 2 ^ 32
as_usize Segment.txn_fields = 9 * 2 ^ 32
as_usize Segment.txn_data = 10 * 2 ^ 32
as_usize Segment.rlp_raw = 11 * 2 ^ 32
as_usize Segment.trie_data = 12 * 2 ^ 32
as_usize Segment.shift_table = 13 * 2 ^ 32
as_usize Segment.jumpdest_bits = 14 * 2 ^ 32
as_usize Segment.ecdsa_table = 15 * 2 ^ 32
as_usize Segment.bn_wnaf_a = 16 * 2 ^ 32
as_usize Segment.bn_wnaf_b = 17 * 2 ^ 32
as_usize Segment.bn_table_q = 18 * 2 ^ 32
as_usize Segment.bn_pairing = 19 * 2 ^ 32
as_usize Segment.accessed_addresses = 20 * 2 ^ 32
as_usize Segment.accessed_storage_keys = 21 * 2 ^ 32
as_usize Segment.self_destruct_list = 22 * 2 ^ 32
as_usize Segment.txn_bloom = 23 * 2 ^ 32
as_usize Segment.global_block_bloom = 24 * 2 ^ 32
as_usize Segment.logs = 25 * 2 ^ 32
as_usize Segment.logs_data = 26 * 2 ^ 32
as_usize Segment.journal = 27 * 2 ^ 32
as_usize Segment.journal_data = 28 * 2 ^ 32
as_usize Segment.journal_checkpoints = 29 * 2 ^ 32
as_usize Segment.touched_addresses = 30 * 2 ^ 32
as_usize Segment.context_checkpoints = 31 * 2 ^ 32
as_usize Segment.block_hashes = 32 * 2 ^ 32

unfoldable pub unscale : Segment → ℕ
unfolding as_usize
unscale s = as_usize s >>> segment_scaling_factor

unfoldable pub all : List Segment
all =
    Segment.code ∷ Segment.stack ∷ Segment.main_memory ∷ Segment.calldata ∷ Segment.returndata
    ∷ Segment.global_metadata ∷ Segment.context_metadata ∷ Segment.kernel_general
    ∷ Segment.kernel_account_code ∷ Segment.txn_fields ∷ Segment.txn_data ∷ Segment.rlp_raw
    ∷ Segment.trie_data ∷ Segment.shift_table ∷ Segment.jumpdest_bits ∷ Segment.ecdsa_table
    ∷ Segment.bn_wnaf_a ∷ Segment.bn_wnaf_b ∷ Segment.bn_table_q ∷ Segment.bn_pairing
    ∷ Segment.accessed_addresses ∷ Segment.accessed_storage_keys ∷ Segment.self_destruct_list
    ∷ Segment.txn_bloom ∷ Segment.global_block_bloom ∷ Segment.logs ∷ Segment.logs_data
    ∷ Segment.journal ∷ Segment.journal_data ∷ Segment.journal_checkpoints
    ∷ Segment.touched_addresses ∷ Segment.context_checkpoints ∷ Segment.block_hashes ∷ []

unfoldable pub bit_range : Segment → ℕ
bit_range Segment.code = 8
bit_range Segment.stack = 256
bit_range Segment.main_memory = 8
bit_range Segment.calldata = 8
bit_range Segment.returndata = 8
bit_range Segment.global_metadata = 256
bit_range Segment.context_metadata = 256
bit_range Segment.kernel_general = 256
bit_range Segment.kernel_account_code = 8
bit_range Segment.txn_fields = 256
bit_range Segment.txn_data = 8
bit_range Segment.rlp_raw = 8
bit_range Segment.trie_data = 256
bit_range Segment.shift_table = 256
bit_range Segment.jumpdest_bits = 1
bit_range Segment.ecdsa_table = 256
bit_range Segment.bn_wnaf_a = 8
bit_range Segment.bn_wnaf_b = 8
bit_range Segment.bn_table_q = 256
bit_range Segment.bn_pairing = 256
bit_range Segment.accessed_addresses = 256
bit_range Segment.accessed_storage_keys = 256
bit_range Segment.self_destruct_list = 256
bit_range Segment.txn_bloom = 8
bit_range Segment.global_block_bloom = 256
bit_range Segment.logs = 256
bit_range Segment.logs_data = 256
bit_range Segment.journal = 256
bit_range Segment.journal_data = 256
bit_range Segment.journal_checkpoints = 256
bit_range Segment.touched_addresses = 256
bit_range Segment.context_checkpoints = 256
bit_range Segment.block_hashes = 256
