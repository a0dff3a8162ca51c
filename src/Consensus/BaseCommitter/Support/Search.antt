-- ===== src/Consensus/BaseCommitter/Support/Search.antt =====
-- What the search for a supported block finds.
use mathlib.Core.Path.{subst}
use dual_optimistic_l.Base.{
  ℕ, zero, suc, ◌+◌, length, ◌<◌, ◌≡◌, refl, sym, ap, ◌∙◌, inl, inr, Option, none, some, List, [],
  ◌∷◌, All, ltb, leb, arith, Bool-cases, Option-cases,
}
use dual_optimistic_l.Base.Set
use dual_optimistic_l.Consensus.BaseCommitter.Support.{
  first_at, found_or, search_weak, find_from, find_supported_block,
}
use dual_optimistic_l.Consensus.DagState.{DagState, get_block}
use dual_optimistic_l.Consensus.DagState.Outcome.{Outcome, done}
use dual_optimistic_l.Consensus.DagState.Store.{get_block-reference}
use dual_optimistic_l.Consensus.Types.{BlockRef, Slot, VerifiedBlock, ref_key}
use dual_optimistic_l.Consensus.BaseCommitter.Support.Supports.{
  names, through, HasAncestors, IsCausal, get_block-HasAncestors, Supports, SupportsVia, IsRight,
  ancestor_lem, first_at-some, first_at-none, contains-head, via_cons, via_tail,
}

-- What the recursive call is known to do on the blocks below a round.
abbrev Searches : DagState → Slot → ℕ → (VerifiedBlock → Outcome (Option BlockRef)) → Type 0
Searches s p n find =
    (d : VerifiedBlock)
    → d.round < n
    → HasAncestors s d
    → (r : Option BlockRef) × (find d ≡ done r) × IsRight (Supports s p d) r

some_inv : (x y : VerifiedBlock) → ◌≡◌ {A = Option VerifiedBlock} (some x) (some y) → x ≡ y
some_inv x y e = ground arith

search_weak_lem :
    (s : DagState) (p : Slot) (n : ℕ) (find : VerifiedBlock → Outcome (Option BlockRef))
    (as_ : List BlockRef)
    → IsCausal s
    → Searches s p n find
    → All (λ a. (a.round < n) × ((d : VerifiedBlock) × (get_block s a ≡ some d))) as_
    → (r : Option BlockRef) × (search_weak find s p as_ ≡ done r) × IsRight (SupportsVia s p as_) r
unfolding search_weak Set.contains
search_weak_lem s p n find [] k f h = (none, refl, λ q. empty_via q)
  where
    empty_via : (q : BlockRef) → ¬ SupportsVia s p [] q
    empty_via q (a, d, e, l, g, r) = absurd (ground arith)
search_weak_lem s p n find (b ∷ rest) k f h =
    let (more, e, right) = search_weak_lem s p n find rest k f h.1 in
    elim (Bool-cases (leb b.round p.round)) [
      | inl low ↦
          let no_ : (q : BlockRef) (d : VerifiedBlock)
              → p.round < b.round
              → get_block s b ≡ some d
              → ¬ Supports s p d q =
            λ q d l g r. absurd (ground arith) in
          (more, rw (low, search_weak) e, widen more no_ right)
      | inr high ↦
          let (d, g) = h.0.1 in
          let at_b : d.round ≡ b.round = ap (λ r. r.round) (get_block-reference s b k.keyed g) in
          let (found, e1, right1) = f d (omega (arith, h.0.0)) (get_block-HasAncestors s b k g) in
          (
            first_of found more,
            rw (high, g, search_weak, e1, e) (found_or_first found more),
            both found more d (ground arith) g right1 right,
          )
    ]
  where
    first_of : Option BlockRef → Option BlockRef → Option BlockRef
    first_of none m = m
    first_of (some q) m = some q

    found_or_first : (r m : Option BlockRef) → found_or r (done m) ≡ done (first_of r m)
    found_or_first none m = refl
    found_or_first (some q) m = refl

    widen :
        (m : Option BlockRef)
        → ((q : BlockRef) (d : VerifiedBlock)
            → p.round < b.round
            → get_block s b ≡ some d
            → ¬ Supports s p d q)
        → IsRight (SupportsVia s p rest) m
        → IsRight (SupportsVia s p (b ∷ rest)) m
    widen none no_ w = λ q v. w q (via_tail s p b rest q (no_ q) v)
    widen (some q) no_ w = via_cons s p b rest q w

    both :
        (r m : Option BlockRef) (d : VerifiedBlock)
        → p.round < b.round
        → get_block s b ≡ some d
        → IsRight (Supports s p d) r
        → IsRight (SupportsVia s p rest) m
        → IsRight (SupportsVia s p (b ∷ rest)) (first_of r m)
    both (some q) m d l g here w = (b, d, contains-head b rest, l, g, here)
    both none m d l g here w =
        widen m
          (λ q d' _ g' r. here q (subst (λ x. Supports s p x q) (some_inv d' d (sym g' ∙ g)) r)) w

-- A block that supports something stands above the slot.
Supports-round :
    (s : DagState) (p : Slot) (b : VerifiedBlock) (q : BlockRef)
    → HasAncestors s b
    → Supports s p b q
    → p.round < b.round
Supports-round s p _ _ h (names b a inside slot) =
    let low = ancestor_lem s b.round a b.ancestors h inside in ground arith
Supports-round s p _ _ h (through b d a q inside l g r) =
    let low = ancestor_lem s b.round a b.ancestors h inside in omega arith

-- With nothing of the slot named, support comes through an ancestor.
only_through :
    (s : DagState) (p : Slot) (b : VerifiedBlock) (q : BlockRef)
    → first_at p b.ancestors ≡ none
    → Supports s p b q
    → SupportsVia s p b.ancestors q
only_through s p _ _ e (names b a inside slot) =
    let other = first_at-none p b.ancestors a e inside in absurd (ground arith)
only_through s p _ _ e (through b d a q inside l g r) = (a, d, inside, l, g, r)

from_via :
    (s : DagState) (p : Slot) (b : VerifiedBlock) (q : BlockRef)
    → SupportsVia s p b.ancestors q
    → Supports s p b q
from_via s p b q (a, d, inside, l, g, r) = through b d a q inside l g r

find_from_lem :
    (fuel : ℕ) (s : DagState) (p : Slot) → IsCausal s → Searches s p fuel (find_from fuel s p)
unfolding find_from
find_from_lem zero s p k d l h = absurd (omega arith)
find_from_lem (suc fuel) s p k d l h = elim (Bool-cases (ltb d.round p.round)) [
  | inl below ↦ (
    none,
    rw (below, find_from),
    λ q r. (let up = Supports-round s p d q h r in absurd (ground arith)),
  )
  | inr above ↦ elim (Option-cases (first_at p d.ancestors)) [
    | inr (a, e) ↦
        let (inside, slot) = first_at-some p d.ancestors {a = a} e in
        (some a, rw (above, e, find_from), names d a inside slot)
    | inl e ↦
        let (r, e1, right) =
          search_weak_lem s p d.round (find_from fuel s p) d.ancestors k
            (λ x m y. find_from_lem fuel s p k x (omega arith) y) h in
        (r, rw (above, e, find_from) e1, lift r e right)
  ]
]
  where
    lift :
        (r : Option BlockRef)
        → first_at p d.ancestors ≡ none
        → IsRight (SupportsVia s p d.ancestors) r
        → IsRight (Supports s p d) r
    lift none e w = λ q v. w q (only_through s p d q e v)
    lift (some q) e w = from_via s p d q w

-- Where every block of the DAG stands under its own reference with its ancestors in the DAG at lower
-- rounds, and a block has its ancestors so too: the search for the block of a slot that it supports
-- ends without a panic, what it finds is supported by it, and if it finds none then it supports none.
pub find_supported_block_lem :
    (s : DagState) (p : Slot) (from : VerifiedBlock)
    → IsCausal s
    → HasAncestors s from
    → (r : Option BlockRef) × (find_supported_block s p from ≡ done r)
      × IsRight (Supports s p from) r
unfolding find_supported_block
find_supported_block_lem s p from k h =
    find_from_lem (suc (from.round + (length s.blocks + length s.genesis))) s p k from (omega arith)
      h
