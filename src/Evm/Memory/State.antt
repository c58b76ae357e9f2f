-- ===== src/Evm/Memory/State.antt =====
-- The memory state as a finite map from addresses: `get`, `set` and `apply_ops` of
-- `evm_arithmetization/src/witness/memory.rs`.
use bcw_zk_evm.Common.{
  ℕ, suc, ◌≤◌, ◌≡◌, refl, sym, ap, subst, ◌∙◌, List, [], ◌∷◌, length, get_elem?, All, Bool, true,
  false, Bool-cases, Option, none, some, Option-cases, inl, inr, leb, le→leb, ◌||◌, if◌then◌else◌,
  arith,
}
use bcw_zk_evm.Evm.Segments.{Segment, bit_range, all}
use bcw_zk_evm.Evm.Memory.{
  MemoryAddress, MemoryState, MemoryOp, MemoryOpKind, update, flatten, segment_set, segment_get,
  push_contexts, get, set, apply_ops,
}
use bcw_zk_evm.Evm.Memory.Cells.{get-beyond, get-within, found-within, content_at}
use bcw_zk_evm.Evm.Memory.Fits.{
  ContextFits, IsState, SegmentsFit-found, SegmentsFit-missing, SegmentsFit-update, CellFits-found,
  SegmentFits-set,
}
use bcw_zk_evm.Evm.Memory.Contexts.{
  cell, same_address, cell-push_contexts, length-push_contexts, push_contexts-IsState, All-found,
  All-update, cell-written,
}

flatten-some : (o : Option (Option ℕ)) (v : ℕ) → flatten o ≡ some v → o ≡ some (some v)
flatten-some none v h = absurd (grind arith)
flatten-some (some o) v h = ap some h

module _ (bits : ℕ → ℕ) (st : MemoryState) (a : MemoryAddress) (valid : IsState bits st) where
  -- In a valid state `get` never panics, and reads the cell.
  pub get_lem : get bits st a ≡ some (cell st.contexts a)
  unfolding get segment_get
  get_lem = elim (Bool-cases (leb (length st.contexts) a.context)) [
    | inl beyond ↦ rw (beyond, get-beyond st.contexts a.context (ground arith)) refl
    | inr within ↦
        let (context, found) = get-within st.contexts a.context (ground arith) in
        let fits = All-found (ContextFits bits) st.contexts a.context context valid found in
        elim (Option-cases (get_elem? all a.segment)) [
          | inl missing ↦
              rw
                (
                  within,
                  missing,
                  found,
                  SegmentsFit-missing bits all context.segments a.segment fits missing,
                )
                refl
          | inr (s, listed) ↦
              let (g, here, segment_fits) =
                SegmentsFit-found bits all context.segments a.segment s fits listed in
              elim (Option-cases (content_at g.content a.virt)) [
                | inl unset ↦
                    rw (within, listed, found, here, unset)
                      (none_read (leb (length g.content) a.virt) _)
                | inr (v, read) ↦
                    let full = flatten-some (get_elem? g.content a.virt) v read in
                    let inside = found-within g.content a.virt (some v) full in
                    let short : leb (length g.content) a.virt ≡ false = ground arith in
                    let checked =
                      le→leb (bits v) (bit_range s)
                        (CellFits-found bits s g.content a.virt v segment_fits full) in
                    rw (within, listed, found, here, full, short, checked) refl
              ]
        ]
  ]
    where
      none_read :
          (b : Bool) (x : Option (Option ℕ)) → (if b || true then some none else x) ≡ some none
      none_read true x = refl
      none_read false x = refl

module _ (bits : ℕ → ℕ) (st : MemoryState) (a : MemoryAddress) (v : ℕ) (s : Segment)
    (b : MemoryAddress) (valid : IsState bits st) (listed : get_elem? all a.segment ≡ some s)
    (fits : bits v ≤ bit_range s) where
  -- In a valid state, setting a value that fits its segment succeeds, even in a context that is not
  -- there yet; the state stays valid, the address reads as the value, and every other as before.
  pub set_lem :
      (st' : MemoryState) × (set bits st a v ≡ some st')
      × IsState bits st'
      × (get bits st' b ≡ (if same_address a b then some (some v) else get bits st b))
  unfolding set
  set_lem =
      let contexts = push_contexts (suc a.context) a.context st.contexts in
      let contexts_fit = push_contexts-IsState bits (suc a.context) a.context st.contexts valid in
      let reached = length-push_contexts (suc a.context) a.context st.contexts (omega arith) in
      let (context, found) = get-within contexts a.context reached in
      let context_fits =
        All-found (ContextFits bits) contexts a.context context contexts_fit found in
      let (g, here, g_fits) =
        SegmentsFit-found bits all context.segments a.segment s context_fits listed in
      let states = update a.segment (segment_set g a.virt v) context.segments in
      let st' : MemoryState = record {
        contexts = update a.context (record { segments = states }) contexts;
        preinitialized_segments = st.preinitialized_segments;
      } in
      let valid' : IsState bits st' =
        All-update (ContextFits bits) contexts a.context (record { segments = states }) contexts_fit
          (SegmentsFit-update bits all context.segments a.segment s (segment_set g a.virt v)
            context_fits listed (SegmentFits-set bits s g a.virt v g_fits fits)) in
      (
        st',
        rw (listed, le→leb (bits v) (bit_range s) fits, found, here) refl,
        valid',
        get_lem bits st' b valid'
            ∙ ap some (cell-written contexts a context g found here v b)
            ∙ ap (λ o. some (if same_address a b then some v else o))
                (cell-push_contexts (suc a.context) a.context st.contexts b)
            ∙ choose (same_address a b)
            ∙ ap (λ r. if same_address a b then some (some v) else r)
                (sym (get_lem bits st b valid)),
      )
    where
      choose :
          (same : Bool)
          → some (if same then some v else cell st.contexts b)
            ≡ (if same then some (some v) else some (cell st.contexts b))
      choose true = refl
      choose false = refl

-- The operations that memory accepts: a write is to a segment that exists, of a value that fits it.
abbrev pub Accepted : (ℕ → ℕ) → MemoryOp → Type 0
Accepted bits o = elim o.kind [
  | MemoryOpKind.read ↦ Unit
  | MemoryOpKind.write ↦
      (s : Segment) × (get_elem? all o.address.segment ≡ some s) × (bits o.value ≤ bit_range s)
]

-- What `b` reads as after the operations, where it read as `old` before.
pub last_write : MemoryAddress → Option (Option ℕ) → List MemoryOp → Option (Option ℕ)
last_write b old [] = old
last_write b old (o ∷ ops) = elim o.kind [
  | MemoryOpKind.read ↦ last_write b old ops
  | MemoryOpKind.write ↦
      last_write b (if same_address o.address b then some (some o.value) else old) ops
]

-- From a valid state, `apply_ops` succeeds on operations whose writes fit their segments, leaves a
-- valid state, and an address then reads as its last write, or as before where none was.
pub apply_ops_lem :
    (bits : ℕ → ℕ) (st : MemoryState) (ops : List MemoryOp) (b : MemoryAddress)
    → IsState bits st
    → All (Accepted bits) ops
    → (st' : MemoryState) × (apply_ops bits st ops ≡ some st')
      × IsState bits st'
      × (get bits st' b ≡ last_write b (get bits st b) ops)
unfolding apply_ops last_write
apply_ops_lem bits st [] b valid accepted = (st, refl, valid, refl)
apply_ops_lem bits st (o ∷ ops) b valid accepted =
    by_kind o.kind refl (λ m valid_m. apply_ops_lem bits m ops b valid_m accepted.1)
  where
    by_kind :
        (k : MemoryOpKind)
        → o.kind ≡ k
        → ((m : MemoryState)
            → IsState bits m
            → (st' : MemoryState) × (apply_ops bits m ops ≡ some st')
              × IsState bits st'
              × (get bits st' b ≡ last_write b (get bits m b) ops))
        → (st' : MemoryState) × (apply_ops bits st (o ∷ ops) ≡ some st')
          × IsState bits st'
          × (get bits st' b ≡ last_write b (get bits st b) (o ∷ ops))
    by_kind MemoryOpKind.read e rest = rw e (rest st valid)
    by_kind MemoryOpKind.write e rest =
        let (s, listed, fits) =
          subst
            (λ k. elim k [
              | MemoryOpKind.read ↦ Unit
              | MemoryOpKind.write ↦
                  (s : Segment) × (get_elem? all o.address.segment ≡ some s)
                  × (bits o.value ≤ bit_range s)
            ])
            e accepted.0 in
        let (m, made, valid_m, reads) = set_lem bits st o.address o.value s b valid listed fits in
        let (st', applied, valid', after) = rest m valid_m in
        (st', rw (e, made) applied, valid', after ∙ rw e (ap (λ r. last_write b r ops) reads))
