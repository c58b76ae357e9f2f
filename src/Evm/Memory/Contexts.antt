-- ===== src/Evm/Memory/Contexts.antt =====
-- The cells of a list of contexts, and the contexts that `set` adds.
use bcw_zk_evm.Common.{
  ℕ, zero, suc, ◌+◌, subst, ◌<◌, ◌≡◌, refl, sym, ◌∙◌, List, [], ◌∷◌, ◌++◌, length, length-append,
  get_elem?, replicate, All, All-append, Bool, ◌&&◌, Bool-cases, Option, none, some, ◌>>=◌, inl,
  inr, leb, ◌==◌, ==_iff, if◌then◌else◌, arith,
}
use bcw_zk_evm.Evm.Segments.{count}
use bcw_zk_evm.Evm.Memory.{
  MemoryAddress, MemorySegmentState, MemoryContextState, update, segment_set, default_context,
  push_contexts,
}
use bcw_zk_evm.Evm.Memory.Cells.{
  get-update_same, get-update_other, found-within, content_at, content_at-segment_set,
}
use bcw_zk_evm.Evm.Memory.Fits.{ContextFits, default-ContextFits}

-- The value in a cell.
abbrev pub cell : List MemoryContextState → MemoryAddress → Option ℕ
cell contexts a = get_elem? contexts a.context >>= λ context.
    get_elem? context.segments a.segment >>= λ state. content_at state.content a.virt

abbrev pub same_address : MemoryAddress → MemoryAddress → Bool
same_address a b = (a.context == b.context) && ((a.segment == b.segment) && (a.virt == b.virt))

cell-default :
    (s v : ℕ)
    → (get_elem? default_context.segments s >>= λ state. content_at state.content v) ≡ none
unfolding default_context
cell-default s v = blank count s
  where
    blank :
        (n i : ℕ)
        → (get_elem? (replicate n (record { content = [] })) i >>= λ (state : MemorySegmentState).
            content_at state.content v)
          ≡ none
    blank zero i = refl
    blank (suc n) zero = refl
    blank (suc n) (suc i) = blank n i

cell-pushed :
    (contexts : List MemoryContextState) (a : MemoryAddress)
    → cell (contexts ++ (default_context ∷ [])) a ≡ cell contexts a
cell-pushed contexts a = at contexts a.context
  where
    in_context : MemoryContextState → Option ℕ
    in_context context =
        get_elem? context.segments a.segment >>= λ state. content_at state.content a.virt

    at :
        (cs : List MemoryContextState) (i : ℕ)
        → (get_elem? (cs ++ (default_context ∷ [])) i >>= in_context)
          ≡ (get_elem? cs i >>= in_context)
    at [] zero = cell-default a.segment a.virt
    at [] (suc i) = refl
    at (c ∷ cs) zero = refl
    at (c ∷ cs) (suc i) = at cs i

-- With steps enough, the contexts reach the one that is asked for.
pub length-push_contexts :
    (steps c : ℕ) (contexts : List MemoryContextState)
    → c < length contexts + steps
    → c < length (push_contexts steps c contexts)
unfolding push_contexts
length-push_contexts zero c contexts h = omega (arith, h)
length-push_contexts (suc steps) c contexts h = elim (Bool-cases (leb (length contexts) c)) [
  | inl more ↦ rw more (
      length-push_contexts steps c (contexts ++ (default_context ∷ []))
        (omega (arith, length-append contexts (default_context ∷ []))))
  | inr done ↦ rw done (ground arith)
]

pub cell-push_contexts :
    (steps c : ℕ) (contexts : List MemoryContextState) (a : MemoryAddress)
    → cell (push_contexts steps c contexts) a ≡ cell contexts a
unfolding push_contexts
cell-push_contexts zero c contexts a = refl
cell-push_contexts (suc steps) c contexts a = elim (Bool-cases (leb (length contexts) c)) [
  | inl more ↦
      rw more
        (cell-push_contexts steps c (contexts ++ (default_context ∷ [])) a ∙ cell-pushed contexts a)
  | inr done ↦ rw done refl
]

module _ (P : MemoryContextState → Type 0) where
  pub All-found :
      (xs : List MemoryContextState) (i : ℕ) (x : MemoryContextState)
      → All P xs
      → get_elem? xs i ≡ some x
      → P x
  All-found [] i x h found = absurd (grind arith)
  All-found (y ∷ ys) zero x h found = subst (λ o. elim o [ none ↦ Unit | some u ↦ P u ]) found h.0
  All-found (y ∷ ys) (suc i) x h found = All-found ys i x h.1 found

  pub All-update :
      (xs : List MemoryContextState) (i : ℕ) (x : MemoryContextState)
      → All P xs
      → P x
      → All P (update i x xs)
  All-update [] i x h px = tt
  All-update (y ∷ ys) zero x h px = (px, h.1)
  All-update (y ∷ ys) (suc i) x h px = (h.0, All-update ys i x h.1 px)

pub push_contexts-IsState :
    (bits : ℕ → ℕ) (steps c : ℕ) (contexts : List MemoryContextState)
    → All (ContextFits bits) contexts
    → All (ContextFits bits) (push_contexts steps c contexts)
unfolding push_contexts
push_contexts-IsState bits zero c contexts h = h
push_contexts-IsState bits (suc steps) c contexts h = elim (Bool-cases (leb (length contexts) c)) [
  | inl more ↦ rw more (
      push_contexts-IsState bits steps c (contexts ++ (default_context ∷ [])) (
        All-append (ContextFits bits) contexts (default_context ∷ []) h
          (default-ContextFits bits, tt)))
  | inr done ↦ rw done h
]

-- Writing a cell of a context that is there changes that cell alone.
module _ (contexts : List MemoryContextState) (a : MemoryAddress) (context : MemoryContextState)
    (g : MemorySegmentState) (here : get_elem? contexts a.context ≡ some context)
    (there : get_elem? context.segments a.segment ≡ some g) (v : ℕ) (b : MemoryAddress) where
  abbrev written : List MemoryContextState
  written =
      update a.context
        (record { segments = update a.segment (segment_set g a.virt v) context.segments }) contexts

  pub cell-written : cell written b ≡ (if same_address a b then some v else cell contexts b)
  cell-written = elim (Bool-cases (a.context == b.context)) [
    | inr other ↦
        rw
          (
            other,
            get-update_other contexts a.context b.context
                (record { segments = update a.segment (segment_set g a.virt v) context.segments })
                (λ e. ground arith),
          )
          refl
    | inl same ↦
        rw
          (
            same,
            sym ((==_iff a.context b.context).0 same),
            here,
            get-update_same contexts a.context
                (record { segments = update a.segment (segment_set g a.virt v) context.segments })
                (found-within contexts a.context context here),
          )
          in_context
  ]
    where
      in_context :
          (get_elem? (update a.segment (segment_set g a.virt v) context.segments) b.segment
            >>= λ state. content_at state.content b.virt)
          ≡ (if (a.segment == b.segment) && (a.virt == b.virt)
              then some v
              else (get_elem? context.segments b.segment >>= λ state.
                  content_at state.content b.virt))
      in_context = elim (Bool-cases (a.segment == b.segment)) [
        | inr other ↦
            rw
              (
                other,
                get-update_other context.segments a.segment b.segment (segment_set g a.virt v)
                    (λ e. ground arith),
              )
              refl
        | inl same ↦
            rw
              (
                same,
                sym ((==_iff a.segment b.segment).0 same),
                there,
                get-update_same context.segments a.segment (segment_set g a.virt v)
                    (found-within context.segments a.segment g there),
              )
              (content_at-segment_set g a.virt v b.virt)
      ]
