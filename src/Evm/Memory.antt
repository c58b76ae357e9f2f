-- ===== src/Evm/Memory.antt =====
-- `evm_arithmetization/src/witness/memory.rs`: addresses, memory operations and the memory state.
-- A panic is `none`. `bits` is `U256::bits`; a `HashMap` is a function to an option.
pub mod Cells
pub mod Fits
pub mod Contexts
pub mod State
pub mod Address
use bcw_zk_evm.Common.{
  ℕ, zero, suc, ◌+◌, ◌-◌, ◌*◌, ◌%◌, ◌^◌, min, List, [], ◌∷◌, ◌++◌, length, get_elem?, map,
  replicate, Bool, true, false, ◌||◌, Option, none, some, ◌>>=◌, ◌>>◌, assert, leb, ltb,
  if◌then◌else◌, ◌==◌,
}
use bcw_zk_evm.Word.{◌>>>◌}
use bcw_zk_evm.Evm.Segments.{
  Segment, count, segment_scaling_factor, as_usize, unscale, all, bit_range,
}
use bcw_zk_evm.Evm.Errors.{ProgramError, MemoryError, Result, ok, err}
use bcw_zk_evm.Evm.Conversions.{low_u32}

-- `cpu/membus.rs`
abbrev num_gp_channels : ℕ
num_gp_channels = 3

abbrev pub num_channels : ℕ
num_channels = 5

-- `witness/operation.rs`
abbrev context_scaling_factor : ℕ
context_scaling_factor = 64

pub data MemoryChannel : Type 0 where
  code : MemoryChannel
  general_purpose : ℕ → MemoryChannel
  partial_channel : MemoryChannel

unfoldable pub index : MemoryChannel → Option ℕ
index MemoryChannel.code = some 0
index (MemoryChannel.general_purpose n) = do assert (ltb n num_gp_channels); some (n + 1)
index MemoryChannel.partial_channel = some (num_gp_channels + 1)

pub record MemoryAddress : Type 0 where
  pub context : ℕ
  pub segment : ℕ
  pub virt : ℕ

-- `MemoryAddress::new`
unfoldable pub new : ℕ → Segment → ℕ → MemoryAddress
new c s v = record { context = c; segment = unscale s; virt = v }

unfoldable pub new_u256s : (ℕ → ℕ) → ℕ → ℕ → ℕ → Result MemoryAddress
new_u256s bits c s v =
    if ltb 32 (bits c)
    then err (ProgramError.memory_error (MemoryError.context_too_large c))
    else if leb count s
    then err (ProgramError.memory_error (MemoryError.segment_too_large s))
    else if ltb 32 (bits v)
    then err (ProgramError.memory_error (MemoryError.virt_too_large v))
    else ok (record { context = c; segment = s; virt = v })

unfoldable pub new_bundle : (ℕ → ℕ) → ℕ → Result MemoryAddress
new_bundle bits addr =
    let v = low_u32 addr in
    let s = low_u32 (addr >>> segment_scaling_factor) in
    let c = low_u32 (addr >>> context_scaling_factor) in new_u256s bits c s v

-- `virt` is a `usize`.
unfoldable pub increment : MemoryAddress → MemoryAddress
increment a = record {
  context = a.context;
  segment = a.segment;
  virt = min (a.virt + 1) (2 ^ 64 - 1);
}

pub data MemoryOpKind : Type 0 where
  read write : MemoryOpKind

pub record MemoryOp : Type 0 where
  pub filter : Bool
  pub timestamp : ℕ
  pub address : MemoryAddress
  pub kind : MemoryOpKind
  pub value : ℕ

-- `MemoryOp::new`; the time stamp is a `usize`, which wraps around in a release build.
unfoldable pub new_op : MemoryChannel → ℕ → MemoryAddress → MemoryOpKind → ℕ → Option MemoryOp
new_op channel clock a k v = do
  i ← index channel
  some (record {
    filter = true;
    timestamp = (clock * num_channels + i) % 2 ^ 64;
    address = a;
    kind = k;
    value = v;
  })

unfoldable pub sorting_key : MemoryOp → ℕ × ℕ × ℕ × ℕ
sorting_key o = (o.address.context, o.address.segment, o.address.virt, o.timestamp)

pub record MemorySegmentState : Type 0 where
  pub content : List (Option ℕ)

pub record MemoryContextState : Type 0 where
  pub segments : List MemorySegmentState

pub record MemoryState : Type 0 where
  pub contexts : List MemoryContextState
  pub preinitialized_segments : Segment → Option MemorySegmentState

-- `MemoryContextState::default()`
unfoldable pub default_context : MemoryContextState
default_context = record { segments = replicate count (record { content = [] }) }

-- `MemoryState::default()`
unfoldable pub default : MemoryState
unfolding default_context
default = record { contexts = default_context ∷ []; preinitialized_segments = λ s. none }

-- `xs[i] = x`, within the list.
abbrev pub update {ℓ} : {A : Type ℓ} → ℕ → A → List A → List A
update i x [] = []
update zero x (y ∷ ys) = x ∷ ys
update (suc i) x (y ∷ ys) = y ∷ update i x ys

-- `unwrap_or_default`
abbrev unwrap_or_default : Option ℕ → ℕ
unwrap_or_default none = 0
unwrap_or_default (some v) = v

abbrev pub flatten : Option (Option ℕ) → Option ℕ
flatten none = none
flatten (some o) = o

-- `MemorySegmentState::get`
unfoldable pub segment_get : MemorySegmentState → ℕ → ℕ
segment_get s virtual_addr = unwrap_or_default (flatten (get_elem? s.content virtual_addr))

-- `MemorySegmentState::set`, at an address below `usize::MAX`.
unfoldable pub segment_set : MemorySegmentState → ℕ → ℕ → MemorySegmentState
segment_set s virtual_addr v =
    let missing = virtual_addr + 1 - length s.content in
    let resized =
      if leb (length s.content) virtual_addr
      then s.content ++ replicate missing none
      else s.content in
    record { content = update virtual_addr (some v) resized }

-- `MemorySegmentState::content`
unfoldable pub segment_content : MemorySegmentState → List ℕ
segment_content s = map unwrap_or_default s.content

abbrev is_none : Option ℕ → Bool
is_none none = true
is_none (some v) = false

-- `MemoryState::new`
unfoldable pub of_kernel_code : List ℕ → Option MemoryState
unfolding default default_context unscale
of_kernel_code kernel_code = do
  context ← get_elem? default.contexts 0
  some (record {
    contexts =
        record {
          segments =
              update (unscale Segment.code) (record { content = map some kernel_code })
                context.segments;
        }
        ∷ [];
    preinitialized_segments = default.preinitialized_segments;
  })

-- `HashMap::insert`, with the derived equality of the segments.
unfoldable pub insert_preinitialized_segment :
    MemoryState → Segment → MemorySegmentState → MemoryState
insert_preinitialized_segment st segment values = record {
  contexts = st.contexts;
  preinitialized_segments =
      λ s. if as_usize s == as_usize segment then some values else st.preinitialized_segments s;
}

unfoldable pub is_preinitialized_segment : MemoryState → ℕ → Bool
is_preinitialized_segment st n = elim (get_elem? all n) [
  | none ↦ false
  | some s ↦ elim (st.preinitialized_segments s) [ none ↦ false | some values ↦ true ]
]

-- The contexts are extended while the address's is missing; the first number is the steps left.
unfoldable pub push_contexts : ℕ → ℕ → List MemoryContextState → List MemoryContextState
unfolding default_context
push_contexts zero c contexts = contexts
push_contexts (suc steps) c contexts =
    let pushed = push_contexts steps c (contexts ++ (default_context ∷ [])) in
    if leb (length contexts) c then pushed else contexts

module _ (bits : ℕ → ℕ) where
  -- `MemoryState::get`
  unfoldable pub get : MemoryState → MemoryAddress → Option (Option ℕ)
  get st a =
      if leb (length st.contexts) a.context then some none else elim (get_elem? all a.segment) [
        | none ↦ some none
        | some segment ↦ do
          context ← get_elem? st.contexts a.context
          state ← get_elem? context.segments a.segment
          let unset = is_none (flatten (get_elem? state.content a.virt))
          let v = segment_get state a.virt
          if leb (length state.content) a.virt || unset
              then some none
              else do assert (leb (bits v) (bit_range segment)); some (some v)
      ]

  unfoldable pub get_with_init : MemoryState → MemoryAddress → Option ℕ
  get_with_init st a = do
    found ← get st a
    elim found [
      | some v ↦ some v
      | none ↦ do
        segment ← get_elem? all a.segment
        elim (st.preinitialized_segments segment) [
          | none ↦ some 0
          | some values ↦
              if ltb a.virt (length values.content)
              then flatten (get_elem? values.content a.virt)
              else some 0
        ]
    ]

  -- `MemoryState::set`
  unfoldable pub set : MemoryState → MemoryAddress → ℕ → Option MemoryState
  set st a v = do
    let contexts = push_contexts (suc a.context) a.context st.contexts
    segment ← get_elem? all a.segment
    assert (leb (bits v) (bit_range segment))
    context ← get_elem? contexts a.context
    state ← get_elem? context.segments a.segment
    let states = update a.segment (segment_set state a.virt v) context.segments
    some (record {
      contexts = update a.context (record { segments = states }) contexts;
      preinitialized_segments = st.preinitialized_segments;
    })

  unfoldable pub apply_ops : MemoryState → List MemoryOp → Option MemoryState
  apply_ops st [] = some st
  apply_ops st (o ∷ ops) = do
    st' ← elim o.kind [
      | MemoryOpKind.write ↦ set st o.address o.value
      | MemoryOpKind.read ↦ some st
    ]
    apply_ops st' ops
