-- ===== src/Evm/Memory/Address.antt =====
-- Addresses and time stamps of `evm_arithmetization/src/witness/memory.rs`, and the numbers of the
-- segments.
use bcw_zk_evm.Common.{
  ℕ, zero, suc, ◌+◌, ◌*◌, ◌/◌, ◌%◌, ◌^◌, ◌≤◌, ◌<◌, ◌≡◌, ◌↔◌, refl, sym, ap, subst, List, [], ◌∷◌,
  get_elem?, Bool, true, false, Option, none, some, ==_iff, ◌&&◌, ltb, ◌==◌, if◌then◌else◌, ◌>>=◌,
  ◌>>◌, assert, Bool-cases, Option-cases, inl, inr, arith,
}
use bcw_zk_evm.Evm.Segments.{Segment, as_usize, unscale, all}
use bcw_zk_evm.Evm.Errors.{ProgramError, MemoryError, ok, err}
use bcw_zk_evm.Evm.Memory.{
  MemoryAddress, MemoryChannel, MemoryOp, MemoryOpKind, new_u256s, new_bundle, index, new_op,
  num_channels,
}

-- `U256::bits`: the least number of bits that represent a number.
abbrev pub IsBitLength : (ℕ → ℕ) → Type 0
IsBitLength bits = (x w : ℕ) → (bits x ≤ w) ↔ (x < 2 ^ w)

-- The address that is bundled as `virt + segment * 2 ^ 32 + context * 2 ^ 64`.
abbrev bundle : ℕ → ℕ → ℕ → ℕ
bundle c s v = v + s * 2 ^ 32 + c * 2 ^ 64

module _ (bits : ℕ → ℕ) (bits_iff : IsBitLength bits) (c s v : ℕ) (hc : c < 2 ^ 32)
    (hs : s < 2 ^ 32) (hv : v < 2 ^ 32) where
  -- Of the three limbs of a bundled address, `new_bundle` makes the address where the segment exists,
  -- and refuses the segment where it does not.
  pub new_bundle_lem : new_bundle bits (bundle c s v) ≡ (
      if ltb s 33
      then ok (record { context = c; segment = s; virt = v })
      else err (ProgramError.memory_error (MemoryError.segment_too_large s)))
  unfolding new_bundle new_u256s
  new_bundle_lem =
      let low : bundle c s v % 2 ^ 32 ≡ v = omega arith in
      let middle : bundle c s v / 2 ^ 32 % 2 ^ 32 ≡ s = omega arith in
      let high : bundle c s v / 2 ^ 64 % 2 ^ 32 ≡ c = omega arith in
      let small_c : ltb 32 (bits c) ≡ false = ground (arith, (bits_iff c 32).1 hc) in
      let small_v : ltb 32 (bits v) ≡ false = ground (arith, (bits_iff v 32).1 hv) in
      rw (low, middle, high, small_c, small_v) (ground arith)

and_left : (a b : Bool) → a && b ≡ true → a ≡ true
and_left true b h = refl
and_left false b h = h

and_right : (a b : Bool) → a && b ≡ true → b ≡ true
and_right true b h = h
and_right false b h = absurd (grind arith)

-- Whether the segments stand at their numbers, from the first number on.
abbrev stand_from : ℕ → List Segment → Bool
stand_from n [] = true
stand_from n (s ∷ ss) = (unscale s == n) && stand_from (suc n) ss

stand_from-found :
    (n : ℕ) (ss : List Segment) (i : ℕ) (s : Segment)
    → stand_from n ss ≡ true
    → get_elem? ss i ≡ some s
    → unscale s ≡ n + i
stand_from-found n [] i s h found = absurd (grind arith)
stand_from-found n (t ∷ ss) zero s h found =
    let same : unscale t ≡ unscale s =
      ap (λ (o : Option Segment). elim o [ none ↦ unscale t | some u ↦ unscale u ]) found in
    omega
      (arith, same, (==_iff (unscale t) n).0 (and_left (unscale t == n) (stand_from (suc n) ss) h))
stand_from-found n (t ∷ ss) (suc i) s h found = omega (
  arith,
  stand_from-found (suc n) ss i s (and_right (unscale t == n) (stand_from (suc n) ss) h) found,
)

all-stand_from : stand_from 0 all ≡ true
unfolding all unscale as_usize
all-stand_from = refl

all-unscale : (s : Segment) → get_elem? all (unscale s) ≡ some s
unfolding all unscale as_usize
all-unscale Segment.code = refl
all-unscale Segment.stack = refl
all-unscale Segment.main_memory = refl
all-unscale Segment.calldata = refl
all-unscale Segment.returndata = refl
all-unscale Segment.global_metadata = refl
all-unscale Segment.context_metadata = refl
all-unscale Segment.kernel_general = refl
all-unscale Segment.kernel_account_code = refl
all-unscale Segment.txn_fields = refl
all-unscale Segment.txn_data = refl
all-unscale Segment.rlp_raw = refl
all-unscale Segment.trie_data = refl
all-unscale Segment.shift_table = refl
all-unscale Segment.jumpdest_bits = refl
all-unscale Segment.ecdsa_table = refl
all-unscale Segment.bn_wnaf_a = refl
all-unscale Segment.bn_wnaf_b = refl
all-unscale Segment.bn_table_q = refl
all-unscale Segment.bn_pairing = refl
all-unscale Segment.accessed_addresses = refl
all-unscale Segment.accessed_storage_keys = refl
all-unscale Segment.self_destruct_list = refl
all-unscale Segment.txn_bloom = refl
all-unscale Segment.global_block_bloom = refl
all-unscale Segment.logs = refl
all-unscale Segment.logs_data = refl
all-unscale Segment.journal = refl
all-unscale Segment.journal_data = refl
all-unscale Segment.journal_checkpoints = refl
all-unscale Segment.touched_addresses = refl
all-unscale Segment.context_checkpoints = refl
all-unscale Segment.block_hashes = refl

-- `all` lists a segment at an index exactly where the index is the segment's number, its value
-- unscaled.
pub all-unscale_iff : (s : Segment) (i : ℕ) → (get_elem? all i ≡ some s) ↔ (unscale s ≡ i)
all-unscale_iff s i = (
  λ found. omega (arith, stand_from-found 0 all i s all-stand_from found),
  λ e. subst (λ j. get_elem? all j ≡ some s) e (all-unscale s),
)

index-lt : (m : MemoryChannel) (i : ℕ) → index m ≡ some i → i < num_channels
unfolding index
index-lt MemoryChannel.code i h = grind arith
index-lt (MemoryChannel.general_purpose n) i h = elim (Bool-cases (ltb n 3)) [
  | inl small ↦
      (let e : some (n + 1) ≡ some i = subst (λ t. (assert t >> some (n + 1)) ≡ some i) small h in
        grind arith)
  | inr large ↦
      (let e : none ≡ some i = subst (λ t. (assert t >> some (n + 1)) ≡ some i) large h in
        grind arith)
]
index-lt MemoryChannel.partial_channel i h = grind arith

new_op-timestamp :
    (m : MemoryChannel) (clock : ℕ) (a : MemoryAddress) (k : MemoryOpKind) (v : ℕ) (o : MemoryOp)
    → new_op m clock a k v ≡ some o
    → (i : ℕ) × (index m ≡ some i) × (o.timestamp ≡ (clock * num_channels + i) % 2 ^ 64)
unfolding new_op
new_op-timestamp m clock a k v o made = elim (Option-cases (index m)) [
  | inl missing ↦
      absurd (none-some o (sym (subst (λ c. (c >>= λ i. some (op i)) ≡ some o) missing made)))
  | inr (i, e) ↦ (
    i,
    e,
    sym (
        ap (λ r. elim r [ none ↦ 0 | some u ↦ u.timestamp ])
          (subst (λ c. (c >>= λ i. some (op i)) ≡ some o) e made)),
  )
]
  where
    op : ℕ → MemoryOp
    op i = record {
      filter = true;
      timestamp = (clock * num_channels + i) % 2 ^ 64;
      address = a;
      kind = k;
      value = v;
    }

    none-some : (u : MemoryOp) → some u ≡ none → ⊥
    none-some u h = grind arith

module _ (m n : MemoryChannel) (clock later : ℕ) (a b : MemoryAddress) (k l : MemoryOpKind)
    (v w : ℕ) (o p : MemoryOp) (made : new_op m clock a k v ≡ some o)
    (other : new_op n later b l w ≡ some p) (h : clock < later)
    (fits : (later + 1) * num_channels ≤ 2 ^ 64) where
  -- An operation at an earlier clock has a lower time stamp, whatever the two channels, as long as the
  -- time stamps of the later clock are below 2^64.
  pub new_op-ordered : o.timestamp < p.timestamp
  new_op-ordered =
      let (i, at, stamp) = new_op-timestamp m clock a k v o made in
      let (j, at', stamp') = new_op-timestamp n later b l w p other in
      omega (arith, index-lt m i at, index-lt n j at', stamp, stamp', h, fits)
