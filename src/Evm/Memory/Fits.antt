-- ===== src/Evm/Memory/Fits.antt =====
-- The invariant of the memory state: every context has all the segments, and every value fits the
-- bits of its segment.
use bcw_zk_evm.Common.{
  ℕ, zero, suc, ◌≤◌, ◌≡◌, refl, sym, subst, List, [], ◌∷◌, length, get_elem?, All, Option, none,
  some, replicate, All-append, ◌++◌, arith, ◌-◌, ◌+◌, Bool-cases, inl, inr, leb,
}
use bcw_zk_evm.Evm.Segments.{Segment, bit_range, all}
use bcw_zk_evm.Evm.Memory.{
  MemorySegmentState, MemoryContextState, MemoryState, update, segment_set, default_context,
}

module _ (bits : ℕ → ℕ) where
  abbrev pub CellFits : Segment → Option ℕ → Type 0
  CellFits s none = Unit
  CellFits s (some v) = bits v ≤ bit_range s

  abbrev pub SegmentFits : Segment → MemorySegmentState → Type 0
  SegmentFits s state = All (CellFits s) state.content

  abbrev pub SegmentsFit : List Segment → List MemorySegmentState → Type 0
  SegmentsFit [] [] = Unit
  SegmentsFit [] (g ∷ gs) = ⊥
  SegmentsFit (s ∷ ss) [] = ⊥
  SegmentsFit (s ∷ ss) (g ∷ gs) = SegmentFits s g × SegmentsFit ss gs

  abbrev pub ContextFits : MemoryContextState → Type 0
  ContextFits c = SegmentsFit all c.segments

  abbrev pub IsState : MemoryState → Type 0
  IsState st = All ContextFits st.contexts

module _ (bits : ℕ → ℕ) where
  pub SegmentsFit-found :
      (ss : List Segment) (gs : List MemorySegmentState) (i : ℕ) (s : Segment)
      → SegmentsFit bits ss gs
      → get_elem? ss i ≡ some s
      → (g : MemorySegmentState) × (get_elem? gs i ≡ some g) × SegmentFits bits s g
  SegmentsFit-found [] gs i s h found = absurd (grind arith)
  SegmentsFit-found (t ∷ ss) [] i s h found = absurd h
  SegmentsFit-found (t ∷ ss) (g ∷ gs) zero s h found =
      (g, refl, subst (λ o. elim o [ none ↦ Unit | some u ↦ SegmentFits bits u g ]) found h.0)
  SegmentsFit-found (t ∷ ss) (g ∷ gs) (suc i) s h found = SegmentsFit-found ss gs i s h.1 found

  pub SegmentsFit-missing :
      (ss : List Segment) (gs : List MemorySegmentState) (i : ℕ)
      → SegmentsFit bits ss gs
      → get_elem? ss i ≡ none
      → get_elem? gs i ≡ none
  SegmentsFit-missing [] [] i h missing = refl
  SegmentsFit-missing [] (g ∷ gs) i h missing = absurd h
  SegmentsFit-missing (t ∷ ss) [] i h missing = refl
  SegmentsFit-missing (t ∷ ss) (g ∷ gs) zero h missing = absurd (grind arith)
  SegmentsFit-missing (t ∷ ss) (g ∷ gs) (suc i) h missing = SegmentsFit-missing ss gs i h.1 missing

  pub SegmentsFit-update :
      (ss : List Segment) (gs : List MemorySegmentState) (i : ℕ) (s : Segment)
      (g : MemorySegmentState)
      → SegmentsFit bits ss gs
      → get_elem? ss i ≡ some s
      → SegmentFits bits s g
      → SegmentsFit bits ss (update i g gs)
  SegmentsFit-update [] gs i s g h found fits = absurd (grind arith)
  SegmentsFit-update (t ∷ ss) [] i s g h found fits = absurd h
  SegmentsFit-update (t ∷ ss) (x ∷ gs) zero s g h found fits =
      (subst (λ o. elim o [ none ↦ Unit | some u ↦ SegmentFits bits u g ]) (sym found) fits, h.1)
  SegmentsFit-update (t ∷ ss) (x ∷ gs) (suc i) s g h found fits =
      (h.0, SegmentsFit-update ss gs i s g h.1 found fits)

  pub CellFits-found :
      (s : Segment) (content : List (Option ℕ)) (i v : ℕ)
      → All (CellFits bits s) content
      → get_elem? content i ≡ some (some v)
      → bits v ≤ bit_range s
  CellFits-found s [] i v h found = absurd (grind arith)
  CellFits-found s (o ∷ content) zero v h found =
      subst (λ o. elim o [ none ↦ Unit | some u ↦ CellFits bits s u ]) found h.0
  CellFits-found s (o ∷ content) (suc i) v h found = CellFits-found s content i v h.1 found

  CellsFit-update :
      (s : Segment) (content : List (Option ℕ)) (i v : ℕ)
      → All (CellFits bits s) content
      → bits v ≤ bit_range s
      → All (CellFits bits s) (update i (some v) content)
  CellsFit-update s [] i v h fits = tt
  CellsFit-update s (o ∷ content) zero v h fits = (fits, h.1)
  CellsFit-update s (o ∷ content) (suc i) v h fits = (h.0, CellsFit-update s content i v h.1 fits)

  CellsFit-replicate : (s : Segment) (n : ℕ) → All (CellFits bits s) (replicate n none)
  CellsFit-replicate s zero = tt
  CellsFit-replicate s (suc n) = (tt, CellsFit-replicate s n)

  pub SegmentFits-set :
      (s : Segment) (g : MemorySegmentState) (i v : ℕ)
      → SegmentFits bits s g
      → bits v ≤ bit_range s
      → SegmentFits bits s (segment_set g i v)
  unfolding segment_set
  SegmentFits-set s g i v h fits = elim (Bool-cases (leb (length g.content) i)) [
    | inl long ↦ rw long (
        CellsFit-update s (g.content ++ replicate (i + 1 - length g.content) none) i v
          (All-append (CellFits bits s) g.content (replicate (i + 1 - length g.content) none) h
            (CellsFit-replicate s _))
          fits)
    | inr short ↦ rw short (CellsFit-update s g.content i v h fits)
  ]

  SegmentsFit-replicate :
      (ss : List Segment) → SegmentsFit bits ss (replicate (length ss) (record { content = [] }))
  SegmentsFit-replicate [] = tt
  SegmentsFit-replicate (s ∷ ss) = (tt, SegmentsFit-replicate ss)

  pub default-ContextFits : ContextFits bits default_context
  unfolding default_context all
  default-ContextFits = SegmentsFit-replicate all
