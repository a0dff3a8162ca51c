-- ===== src/Consensus/BlockManager/Release.antt =====
-- What the arrival of a missing block changes for those that wait.
use dual_optimistic_l.Base.{
  ◌≡◌, refl, sym, ap, ◌∙◌, ◌⊎◌, inl, inr, Bool, true, false, not, ◌&&◌, Option, none, some, List,
  [], if◌then◌else◌, arith, Bool-cases, Option-cases,
}
use dual_optimistic_l.Base.Map
use dual_optimistic_l.Base.Map.{Map, get-insert, get-remove}
use dual_optimistic_l.Base.Map.Values.{or_default}
use dual_optimistic_l.Base.Set
use dual_optimistic_l.Base.Set.{contains-insert, contains-remove}
use dual_optimistic_l.Consensus.BlockManager.{
  BlockManager, release_all, try_unsuspend_children_blocks,
}
use dual_optimistic_l.Consensus.BlockManager.Waits.{needs, waits, IsRegistered}
use dual_optimistic_l.Consensus.Types.{BlockRef, ref_eqb, ref_iff, ref_key}
use dual_optimistic_l.Consensus.BlockManager.Settle.{release_all-needs, release_all-waits}

unsuspend_some :
    (newly : BlockRef) (m : BlockManager) {waiting : List BlockRef}
    → Map.get newly m.missing_ancestors ≡ some waiting
    → try_unsuspend_children_blocks newly m
      ≡ release_all newly waiting
          (record m { missing_ancestors = Map.remove newly m.missing_ancestors })
unfolding try_unsuspend_children_blocks
unsuspend_some newly m e = rw (e, try_unsuspend_children_blocks)

unsuspend_none :
    (newly : BlockRef) (m : BlockManager)
    → Map.get newly m.missing_ancestors ≡ none
    → try_unsuspend_children_blocks newly m ≡ (m, [])
unfolding try_unsuspend_children_blocks
unsuspend_none newly m e = rw (e, try_unsuspend_children_blocks)

listed :
    (newly x : BlockRef) (m : BlockManager) (o : Option (List BlockRef))
    → Map.get newly m.missing_ancestors ≡ o
    → waits m x newly ≡ Set.contains x (or_default [] o)
unfolding waits
listed newly x m o e = ap (λ o. Set.contains x (or_default [] o)) e

nowhere : (x : BlockRef) → ¬ (Set.contains x [] ≡ true)
unfolding Set.contains
nowhere x h = absurd (ground arith)

in_none : (x : BlockRef) → Set.contains x [] ≡ false
unfolding Set.contains
in_none x = refl

removed-waits :
    (newly : BlockRef) (m : BlockManager) (x a : BlockRef)
    → waits (record m { missing_ancestors = Map.remove newly m.missing_ancestors }) x a
      ≡ (waits m x a && not (ref_eqb a newly))
unfolding waits Set.contains
removed-waits newly m x a =
    ap (λ o. Set.contains x (or_default [] o)) (get-remove a newly m.missing_ancestors)
    ∙ either (ref_eqb a newly) (Map.get a m.missing_ancestors)
  where
    right_true : (p : Bool) → p ≡ (p && true)
    right_true p = ground arith

    right_false : (p : Bool) → false ≡ (p && false)
    right_false p = ground arith

    either :
        (same : Bool) (o : Option (List BlockRef))
        → Set.contains x (or_default [] (if same then none else o))
          ≡ (Set.contains x (or_default [] o) && not same)
    either true o = right_false (Set.contains x (or_default [] o))
    either false o = right_true (Set.contains x (or_default [] o))

-- Where every suspended block is on the lists of the ancestors that it misses, the arrival of a block
-- takes exactly that block off what each suspended block still misses: whoever misses another one, and
-- be it a block that this call itself releases, goes on waiting for it. The list of the block is taken
-- away, the other lists stay, and every suspended block is still on the lists of what it misses.
pub try_unsuspend_children_blocks_lem :
    (newly : BlockRef) (m : BlockManager) (x a : BlockRef)
    → IsRegistered m
    → let m' = (try_unsuspend_children_blocks newly m).0 in
      (needs m' x a ≡ (needs m x a && not (ref_eqb a newly)))
      × (waits m' x a ≡ (waits m x a && not (ref_eqb a newly)))
      × (needs m' x a ≡ true → waits m' x a ≡ true)
unfolding needs
try_unsuspend_children_blocks_lem newly m x a k =
    let (n, w) = effect (Option-cases (Map.get newly m.missing_ancestors)) in
    (n, w, λ h. w ∙ still (needs m x a) (waits m x a) (ref_eqb a newly) (k x a) (sym n ∙ h))
  where
    still :
        (n w same : Bool) → (n ≡ true → w ≡ true) → (n && not same) ≡ true → (w && not same) ≡ true
    still n w same f h = ground arith

    unlisted :
        (n same there : Bool)
        → (same ≡ true → n ≡ true → there ≡ true)
        → (n && not (there && same)) ≡ (n && not same)
    unlisted n same there f = ground arith

    at_newly :
        (o : Option (List BlockRef))
        → Map.get newly m.missing_ancestors ≡ o
        → ref_eqb a newly ≡ true
        → needs m x a ≡ true
        → Set.contains x (or_default [] o) ≡ true
    at_newly o e same h =
        let e1 : a ≡ newly = (ref_iff a newly).0 same in
        let w : waits m x newly ≡ true = k x newly (ap (needs m x) (sym e1) ∙ h) in
        sym (listed newly x m o e) ∙ w

    no_need :
        Map.get newly m.missing_ancestors ≡ none → ref_eqb a newly ≡ true → needs m x a ≡ false
    no_need e same = elim (Bool-cases (needs m x a)) [
      | inl h ↦ absurd (nowhere x (at_newly none e same h))
      | inr h ↦ h
    ]

    keeps_all : (b same : Bool) → (same ≡ true → b ≡ false) → b ≡ (b && not same)
    keeps_all b same f = ground arith

    effect :
        (Map.get newly m.missing_ancestors ≡ none)
          ⊎ ((l : List BlockRef) × (Map.get newly m.missing_ancestors ≡ some l))
        → (needs (try_unsuspend_children_blocks newly m).0 x a
            ≡ (needs m x a && not (ref_eqb a newly)))
          × (waits (try_unsuspend_children_blocks newly m).0 x a
              ≡ (waits m x a && not (ref_eqb a newly)))
    effect (inl e) = rw (unsuspend_none newly m e) (
      keeps_all (needs m x a) (ref_eqb a newly) (no_need e),
      keeps_all (waits m x a) (ref_eqb a newly)
          (λ same. ap (waits m x) ((ref_iff a newly).0 same) ∙ listed newly x m none e ∙ in_none x),
    )
    effect (inr (l, e)) = rw (unsuspend_some newly m e) (
      release_all-needs newly l
            (record m { missing_ancestors = Map.remove newly m.missing_ancestors }) x a
          ∙ unlisted (needs m x a) (ref_eqb a newly) (Set.contains x l) (at_newly (some l) e),
      release_all-waits newly l
            (record m { missing_ancestors = Map.remove newly m.missing_ancestors }) x a
          ∙ removed-waits newly m x a,
    )
