-- ===== src/Consensus/BaseCommitter/Support/Supports.antt =====
-- What it means that a block supports a block of a slot.
use dual_optimistic_l.Base.{
  ℕ, ◌<◌, ◌≡◌, inl, inr, true, false, Option, none, some, List, [], ◌∷◌, All, arith, Bool-cases,
  Option-cases,
}
use dual_optimistic_l.Base.Map
use dual_optimistic_l.Base.Map.{Map}
use dual_optimistic_l.Base.Set
use dual_optimistic_l.Consensus.BaseCommitter.Support.{first_at}
use dual_optimistic_l.Consensus.DagState.{DagState, get_block}
use dual_optimistic_l.Consensus.DagState.Store.{IsKeyed}
use dual_optimistic_l.Consensus.Types.{
  BlockRef, Slot, VerifiedBlock, ref_eqb, ref_iff, ref_key, slot_eqb, slot_of,
}

-- The ancestors of a block are in the DAG, at lower rounds.
abbrev pub HasAncestors : DagState → VerifiedBlock → Type 0
HasAncestors s b =
    All (λ a. (a.round < b.round) × ((d : VerifiedBlock) × (get_block s a ≡ some d))) b.ancestors

abbrev pub AllHaveAncestors : DagState → Map BlockRef VerifiedBlock → Type 0
AllHaveAncestors s [] = Unit
AllHaveAncestors s ((r, b) ∷ rest) = HasAncestors s b × AllHaveAncestors s rest

-- Every block of the DAG stands under its own reference, with its ancestors in the DAG.
pub record IsCausal (s : DagState) : Type 0 where
  pub keyed : IsKeyed s
  pub blocks : AllHaveAncestors s s.blocks
  pub genesis : AllHaveAncestors s s.genesis

get-HasAncestors :
    (s : DagState) (r : BlockRef) {b : VerifiedBlock} (m : Map BlockRef VerifiedBlock)
    → AllHaveAncestors s m
    → Map.get r m ≡ some b
    → HasAncestors s b
unfolding Map.get
get-HasAncestors s r [] h e = absurd (ground arith)
get-HasAncestors s r {b} ((j, d) ∷ rest) h e = elim (Bool-cases (ref_eqb r j)) [
  | inl same ↦ let k : d ≡ b = ground arith in rw (← k) h.0
  | inr other ↦ get-HasAncestors s r {b = b} rest h.1 (ground arith)
]

pub get_block-HasAncestors :
    (s : DagState) (r : BlockRef) {b : VerifiedBlock}
    → IsCausal s
    → get_block s r ≡ some b
    → HasAncestors s b
unfolding get_block
get_block-HasAncestors s r {b} k e = elim (Option-cases (Map.get r s.blocks)) [
  | inl e1 ↦ get-HasAncestors s r {b = b} s.genesis k.genesis (ground arith)
  | inr (d, e1) ↦ get-HasAncestors s r {b = b} s.blocks k.blocks (ground arith)
]

-- A block supports a reference of the slot if it names it, or if it has an ancestor above the slot's
-- round that supports it.
pub data Supports (s : DagState) (p : Slot) : VerifiedBlock → BlockRef → Type 0 where
  names :
      (b : VerifiedBlock) (a : BlockRef)
      → Set.contains a b.ancestors ≡ true
      → slot_eqb (slot_of a) p ≡ true
      → Supports s p b a
  through :
      (b d : VerifiedBlock) (a q : BlockRef)
      → Set.contains a b.ancestors ≡ true
      → p.round < a.round
      → get_block s a ≡ some d
      → Supports s p d q
      → Supports s p b q

-- One of some references supports `q`.
abbrev pub SupportsVia : DagState → Slot → List BlockRef → BlockRef → Type 0
SupportsVia s p as_ q =
    (a : BlockRef) × (d : VerifiedBlock) × (Set.contains a as_ ≡ true)
    × (p.round < a.round)
    × (get_block s a ≡ some d)
    × Supports s p d q

-- An answer is right: what is found is supported, and `none` says that nothing is.
abbrev pub IsRight : (BlockRef → Type 0) → Option BlockRef → Type 0
IsRight supported none = (q : BlockRef) → ¬ supported q
IsRight supported (some q) = supported q

pub ancestor_lem :
    (s : DagState) (n : ℕ) (a : BlockRef) (as_ : List BlockRef)
    → All (λ a. (a.round < n) × ((d : VerifiedBlock) × (get_block s a ≡ some d))) as_
    → Set.contains a as_ ≡ true
    → a.round < n
unfolding Set.contains
ancestor_lem s n a [] h e = absurd (ground arith)
ancestor_lem s n a (b ∷ rest) h e = elim (Bool-cases (ref_eqb a b)) [
  | inl same ↦ let k : a ≡ b = (ref_iff a b).0 same in rw k h.0.0
  | inr other ↦ ancestor_lem s n a rest h.1 (ground arith)
]

pub first_at-some :
    (p : Slot) (as_ : List BlockRef) {a : BlockRef}
    → first_at p as_ ≡ some a
    → (Set.contains a as_ ≡ true) × (slot_eqb (slot_of a) p ≡ true)
unfolding first_at Set.contains
first_at-some p [] e = absurd (ground arith)
first_at-some p (b ∷ rest) {a} e = ground (arith, first_at-some p rest {a = a}, ref_iff a b)

pub first_at-none :
    (p : Slot) (as_ : List BlockRef) (a : BlockRef)
    → first_at p as_ ≡ none
    → Set.contains a as_ ≡ true
    → slot_eqb (slot_of a) p ≡ false
unfolding first_at Set.contains
first_at-none p [] a e h = absurd (ground arith)
first_at-none p (b ∷ rest) a e h = ground (arith, first_at-none p rest a, ref_iff a b)

contains-cons :
    (a b : BlockRef) (as_ : List BlockRef)
    → Set.contains a as_ ≡ true
    → Set.contains a (b ∷ as_) ≡ true
unfolding Set.contains
contains-cons a b as_ h = ground arith

pub contains-head : (a : BlockRef) (as_ : List BlockRef) → Set.contains a (a ∷ as_) ≡ true
unfolding Set.contains
contains-head a as_ = ground (arith, ref_iff a a)

pub via_cons :
    (s : DagState) (p : Slot) (b : BlockRef) (as_ : List BlockRef) (q : BlockRef)
    → SupportsVia s p as_ q
    → SupportsVia s p (b ∷ as_) q
via_cons s p b as_ q (a, d, h, l, g, r) = (a, d, contains-cons a b as_ h, l, g, r)

-- The first of the references does not support `q`, so one of the others does.
pub via_tail :
    (s : DagState) (p : Slot) (b : BlockRef) (as_ : List BlockRef) (q : BlockRef)
    → ((d : VerifiedBlock) → p.round < b.round → get_block s b ≡ some d → ¬ Supports s p d q)
    → SupportsVia s p (b ∷ as_) q
    → SupportsVia s p as_ q
unfolding Set.contains
via_tail s p b as_ q no_ (a, d, h, l, g, r) = elim (Bool-cases (ref_eqb a b)) [
  | inl same ↦ let k : a ≡ b = (ref_iff a b).0 same in absurd (no_ d (rw k at l) (rw k at g) r)
  | inr other ↦ (a, d, ground arith, l, g, r)
]
