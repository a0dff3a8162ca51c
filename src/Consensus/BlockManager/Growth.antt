-- ===== src/Consensus/BlockManager/Growth.antt =====
-- What a committed block leaves of the lists of waiting blocks, and what accepting leaves of the DAG.
use mathlib.Core.Path.{subst}
use dual_optimistic_l.Base.{
  ◌≡◌, refl, sym, ap, ◌∙◌, inl, inr, Bool, true, false, Option, none, some, List, [], ◌∷◌,
  if◌then◌else◌, arith, Option-cases,
}
use dual_optimistic_l.Base.Map
use dual_optimistic_l.Base.Map.{Map, get-remove}
use dual_optimistic_l.Base.Map.Values.{or_default, on_some, update, get-update}
use dual_optimistic_l.Base.Set
use dual_optimistic_l.Base.Set.{contains-remove}
use dual_optimistic_l.Consensus.BlockManager.{
  SuspendedBlock, BlockManager, forget_child, drop_suspended,
}
use dual_optimistic_l.Consensus.BlockManager.Waits.{misses, needs, waits, IsRegistered, misses-if}
use dual_optimistic_l.Consensus.Committee.{Committee}
use dual_optimistic_l.Consensus.DagState
use dual_optimistic_l.Consensus.DagState.{DagState, contains_block}
use dual_optimistic_l.Consensus.DagState.Store.{IsKeyed, accept_block_lem}
use dual_optimistic_l.Consensus.Types.{BlockRef, VerifiedBlock, reference, ref_eqb, ref_key}

forgets_one :
    (r a b x : BlockRef) (waiting : Map BlockRef (List BlockRef))
    → ref_eqb x r ≡ false
    → Set.contains x (or_default [] (Map.get a (update b (Set.remove r) waiting)))
      ≡ Set.contains x (or_default [] (Map.get a waiting))
forgets_one r a b x waiting other =
    ap (λ o. Set.contains x (or_default [] o)) (get-update a b (Set.remove r) waiting)
    ∙ either (ref_eqb a b) (Map.get a waiting)
  where
    removed :
        (l : List BlockRef)
        → Set.contains x (Set.remove r l) ≡ (if ref_eqb x r then false else Set.contains x l)
        → Set.contains x (Set.remove r l) ≡ Set.contains x l
    removed l e = e ∙ ap (λ b. if b then false else Set.contains x l) other

    either :
        (same : Bool) (o : Option (List BlockRef))
        → Set.contains x (or_default [] (if same then on_some (Set.remove r) o else o))
          ≡ Set.contains x (or_default [] o)
    either true none = refl
    either true (some l) = removed l (contains-remove x r l)
    either false o = refl

forget_child-others :
    (r a x : BlockRef) (as_ : List BlockRef) (waiting : Map BlockRef (List BlockRef))
    → ref_eqb x r ≡ false
    → Set.contains x (or_default [] (Map.get a (forget_child r as_ waiting)))
      ≡ Set.contains x (or_default [] (Map.get a waiting))
unfolding forget_child
forget_child-others r a x [] waiting other = refl
forget_child-others r a x (b ∷ rest) waiting other =
    forget_child-others r a x rest (update b (Set.remove r) waiting) other
    ∙ forgets_one r a b x waiting other

dropped :
    (r : BlockRef) (m : BlockManager) {sb : SuspendedBlock}
    → Map.get r m.suspended_blocks ≡ some sb
    → drop_suspended r m ≡ record m {
      suspended_blocks = Map.remove r m.suspended_blocks;
      missing_ancestors = forget_child r sb.missing_ancestors m.missing_ancestors;
    }
unfolding drop_suspended
dropped r m e = rw (e, drop_suspended)

not_there :
    (r : BlockRef) (m : BlockManager) → Map.get r m.suspended_blocks ≡ none → drop_suspended r m ≡ m
unfolding drop_suspended
not_there r m e = rw (e, drop_suspended)

forgotten-IsRegistered :
    (r : BlockRef) (m : BlockManager) (as_ : List BlockRef)
    → IsRegistered m
    → IsRegistered (record m {
      suspended_blocks = Map.remove r m.suspended_blocks;
      missing_ancestors = forget_child r as_ m.missing_ancestors;
    })
unfolding needs waits
forgotten-IsRegistered r m as_ k x a h =
    let e =
      ap (λ o. misses o a) (get-remove x r m.suspended_blocks)
      ∙ misses-if (ref_eqb x r) none (Map.get x m.suspended_blocks) a in
    let (other, old) = split (ref_eqb x r) (needs m x a) (sym e ∙ h) in
    forget_child-others r a x as_ m.missing_ancestors other ∙ k x a old
  where
    split : (b n : Bool) → (if b then false else n) ≡ true → (b ≡ false) × (n ≡ true)
    split b n h = ground arith

pub drop_suspended-IsRegistered :
    (r : BlockRef) (m : BlockManager) → IsRegistered m → IsRegistered (drop_suspended r m)
drop_suspended-IsRegistered r m k = elim (Option-cases (Map.get r m.suspended_blocks)) [
  | inl e ↦ rw (not_there r m e) k
  | inr (sb, e) ↦ rw (dropped r m e) (forgotten-IsRegistered r m sb.missing_ancestors k)
]

-- What accepting blocks leaves of the DAG's state.
pub record IsGrown (s t : DagState) : Type 0 where
  pub keyed : IsKeyed t
  pub committed : t.committed ≡ s.committed
  pub index : t.last_commit_index ≡ s.last_commit_index

accept_block_index :
    (c : Committee) (s : DagState) {t : DagState} (b : VerifiedBlock)
    → DagState.accept_block c s b ≡ some t
    → t.last_commit_index ≡ s.last_commit_index
unfolding DagState.accept_block
accept_block_index c s b e = ground arith

pub accept_blocks-IsGrown :
    (c : Committee) (s : DagState) (bs : List VerifiedBlock) {t : DagState}
    → IsKeyed s
    → DagState.accept_blocks c s bs ≡ some t
    → IsGrown s t
unfolding DagState.accept_blocks
accept_blocks-IsGrown c s [] {t} k e =
    subst (IsGrown s) (some_inv s t e) (record { keyed = k; committed = refl; index = refl })
  where
    some_inv : (x y : DagState) → ◌≡◌ {A = Option DagState} (some x) (some y) → x ≡ y
    some_inv x y e = ground arith
accept_blocks-IsGrown c s (b ∷ rest) {t} k e = elim (Option-cases (DagState.accept_block c s b)) [
  | inl stopped ↦ absurd (no_panic (rw (stopped, DagState.accept_blocks) at e))
  | inr (u, e1) ↦
      let (_, committed, _, _, keyed) = accept_block_lem c s b (reference b) k e1 in
      let more = accept_blocks-IsGrown c u rest keyed (rw (e1, DagState.accept_blocks) at e) in
      record {
        keyed = more.keyed;
        committed = more.committed ∙ committed;
        index = more.index ∙ accept_block_index c s b e1;
      }
]
  where
    no_panic : ¬ (◌≡◌ {A = Option DagState} none (some t))
    no_panic e = absurd (ground arith)
