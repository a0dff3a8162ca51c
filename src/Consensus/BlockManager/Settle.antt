-- ===== src/Consensus/BlockManager/Settle.antt =====
-- What the release of children changes for those that wait.
use dual_optimistic_l.Base.{
  ◌≡◌, refl, ap, ◌∙◌, ◌⊎◌, inl, inr, Bool, true, false, not, ◌&&◌, ◌||◌, none, some, List, [], ◌∷◌,
  if◌then◌else◌, arith, Bool-cases, Option-cases,
}
use dual_optimistic_l.Base.Map
use dual_optimistic_l.Base.Map.{Map, get-insert, get-remove}
use dual_optimistic_l.Base.Set
use dual_optimistic_l.Base.Set.{contains-insert, contains-remove}
use dual_optimistic_l.Consensus.BlockManager.{
  SuspendedBlock, BlockManager, settle, release, release_all,
}
use dual_optimistic_l.Consensus.BlockManager.Waits.{misses, needs, waits, misses-if}
use dual_optimistic_l.Consensus.Types.{BlockRef, VerifiedBlock, ref_eqb, ref_iff, ref_key}

misses-on :
    (x : BlockRef) (a child : BlockRef) (b : VerifiedBlock) (l : List BlockRef) (m : BlockManager)
    → needs (settle child b l m).0 x a ≡ (if ref_eqb x child then Set.contains a l else needs m x a)
unfolding needs Set.contains
misses-on x a child b [] m =
    ap (λ o. misses o a) (get-remove x child m.suspended_blocks)
    ∙ misses-if (ref_eqb x child) none (Map.get x m.suspended_blocks) a
misses-on x a child b (c ∷ more) m =
    ap (λ o. misses o a) (get-insert x child _ m.suspended_blocks)
    ∙ misses-if (ref_eqb x child) _ (Map.get x m.suspended_blocks) a

settle-waits :
    (x a child : BlockRef) (b : VerifiedBlock) (l : List BlockRef) (m : BlockManager)
    → waits (settle child b l m).0 x a ≡ waits m x a
unfolding waits
settle-waits x a child b [] m = refl
settle-waits x a child b (c ∷ more) m = refl

-- A released child no longer misses the new block, and nothing else changes.
release-needs :
    (newly child : BlockRef) (m : BlockManager) (x a : BlockRef)
    → needs (release newly child m).0 x a
      ≡ (needs m x a && not (ref_eqb x child && ref_eqb a newly))
unfolding release needs Set.contains
release-needs newly child m x a = elim (Option-cases (Map.get child m.suspended_blocks)) [
  | inl e ↦ rw (e, release) (absent (Bool-cases (ref_eqb x child)) e)
  | inr (sb, e) ↦
      rw (e, release)
        (misses-on x a child sb.block (Set.remove newly sb.missing_ancestors) m
          ∙ here (Bool-cases (ref_eqb x child)) sb e (contains-remove a newly sb.missing_ancestors))
]
  where
    both : (p q : Bool) → (if p then false else q) ≡ (q && not p)
    both p q = ground arith

    right_true : (p : Bool) → p ≡ (p && true)
    right_true p = ground arith

    absent :
        (ref_eqb x child ≡ true) ⊎ (ref_eqb x child ≡ false)
        → Map.get child m.suspended_blocks ≡ none
        → needs m x a ≡ (needs m x a && not (ref_eqb x child && ref_eqb a newly))
    absent (inl same) e =
        let k : Map.get x m.suspended_blocks ≡ none =
          ap (λ r. Map.get r m.suspended_blocks) ((ref_iff x child).0 same) ∙ e in
        let n : needs m x a ≡ false = ap (λ o. misses o a) k in rw n
    absent (inr other) e = ground arith

    here :
        (ref_eqb x child ≡ true) ⊎ (ref_eqb x child ≡ false)
        → (sb : SuspendedBlock) → Map.get child m.suspended_blocks ≡ some sb
        → Set.contains a (Set.remove newly sb.missing_ancestors)
          ≡ (if ref_eqb a newly then false else Set.contains a sb.missing_ancestors)
        → (if ref_eqb x child
            then Set.contains a (Set.remove newly sb.missing_ancestors)
            else needs m x a)
          ≡ (needs m x a && not (ref_eqb x child && ref_eqb a newly))
    here (inl same) sb e c =
        let k : Map.get x m.suspended_blocks ≡ some sb =
          ap (λ r. Map.get r m.suspended_blocks) ((ref_iff x child).0 same) ∙ e in
        let n : needs m x a ≡ Set.contains a sb.missing_ancestors = ap (λ o. misses o a) k in
        rw (same, c, n) (both (ref_eqb a newly) (Set.contains a sb.missing_ancestors))
    here (inr other) sb e c = rw other (right_true (needs m x a))

release-waits :
    (newly child : BlockRef) (m : BlockManager) (x a : BlockRef)
    → waits (release newly child m).0 x a ≡ waits m x a
unfolding release
release-waits newly child m x a = elim (Option-cases (Map.get child m.suspended_blocks)) [
  | inl e ↦ rw (e, release)
  | inr (sb, e) ↦
      rw (e, release) (settle-waits x a child sb.block (Set.remove newly sb.missing_ancestors) m)
]

pub release_all-needs :
    (newly : BlockRef) (waiting : List BlockRef) (m : BlockManager) (x a : BlockRef)
    → needs (release_all newly waiting m).0 x a
      ≡ (needs m x a && not (Set.contains x waiting && ref_eqb a newly))
unfolding release_all Set.contains
release_all-needs newly [] m x a = ground arith
release_all-needs newly (child ∷ rest) m x a =
    release_all-needs newly rest (release newly child m).0 x a
    ∙ step (release-needs newly child m x a)
  where
    bools : (n c w r : Bool) → ((n && not (c && w)) && not (r && w)) ≡ (n && not ((c || r) && w))
    bools n c w r = ground arith

    step :
        needs (release newly child m).0 x a
          ≡ (needs m x a && not (ref_eqb x child && ref_eqb a newly))
        → (needs (release newly child m).0 x a && not (Set.contains x rest && ref_eqb a newly))
          ≡ (needs m x a && not ((ref_eqb x child || Set.contains x rest) && ref_eqb a newly))
    step e = rw e (bools (needs m x a) (ref_eqb x child) (ref_eqb a newly) (Set.contains x rest))

pub release_all-waits :
    (newly : BlockRef) (waiting : List BlockRef) (m : BlockManager) (x a : BlockRef)
    → waits (release_all newly waiting m).0 x a ≡ waits m x a
unfolding release_all
release_all-waits newly [] m x a = refl
release_all-waits newly (child ∷ rest) m x a =
    release_all-waits newly rest (release newly child m).0 x a ∙ release-waits newly child m x a
