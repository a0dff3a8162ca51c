-- ===== src/Consensus/BlockManager/Waits.antt =====
-- Who waits for whom: a suspended block is on the list of every ancestor that it still misses.
use dual_optimistic_l.Base.{
  ◌≡◌, refl, sym, ap, ◌∙◌, ◌⊎◌, inl, inr, Bool, true, false, ◌&&◌, ◌||◌, Option, none, some, List,
  [], ◌∷◌, if◌then◌else◌, arith, Bool-cases, if_intro,
}
use dual_optimistic_l.Base.Map
use dual_optimistic_l.Base.Map.{Map, get-insert, get-remove}
use dual_optimistic_l.Base.Map.Values.{or_default}
use dual_optimistic_l.Base.Set
use dual_optimistic_l.Base.Set.{contains-insert, contains-remove}
use dual_optimistic_l.Consensus.BlockManager.{
  SuspendedBlock, BlockManager, is_missing, missing_of, register, suspend, accept_or_suspend,
  TryAcceptResult, try_accept_one_block,
}
use dual_optimistic_l.Consensus.DagState.{DagState, contains_block}
use dual_optimistic_l.Consensus.Types.{
  BlockRef, VerifiedBlock, reference, ref_eqb, ref_iff, ref_key,
}

abbrev pub misses : Option SuspendedBlock → BlockRef → Bool
misses none a = false
misses (some sb) a = Set.contains a sb.missing_ancestors

-- The suspended block `x` still misses `a`.
unfoldable pub needs : BlockManager → BlockRef → BlockRef → Bool
needs m x a = misses (Map.get x m.suspended_blocks) a

-- `x` is on the list of `a`.
unfoldable pub waits : BlockManager → BlockRef → BlockRef → Bool
waits m x a = Set.contains x (or_default [] (Map.get a m.missing_ancestors))

abbrev pub IsRegistered : BlockManager → Type 0
IsRegistered m = (x a : BlockRef) → needs m x a ≡ true → waits m x a ≡ true

pub misses-if :
    (b : Bool) (o p : Option SuspendedBlock) (a : BlockRef)
    → misses (if b then o else p) a ≡ (if b then misses o a else misses p a)
misses-if true o p a = refl
misses-if false o p a = refl

-- The missing ancestors are exactly those that the test finds.
pub missing_of_lem :
    (s : DagState) (m : BlockManager) (missing as_ : List BlockRef) (a : BlockRef)
    → Set.contains a (missing_of s m missing as_)
      ≡ (Set.contains a missing || (Set.contains a as_ && is_missing s m a))
unfolding missing_of Set.contains
missing_of_lem s m missing [] a = ground arith
missing_of_lem s m missing (b ∷ rest) a =
    missing_of_lem s m (if is_missing s m b then Set.insert b missing else missing) rest a
    ∙ step (Bool-cases (is_missing s m b)) (contains-insert a b missing)
  where
    at_b : is_missing s m b ≡ true → a ≡ b → is_missing s m a ≡ true
    at_b h e = rw e h

    not_b : is_missing s m b ≡ false → a ≡ b → is_missing s m a ≡ false
    not_b h e = rw e h

    step :
        (is_missing s m b ≡ true) ⊎ (is_missing s m b ≡ false)
        → Set.contains a (Set.insert b missing) ≡ (ref_eqb a b || Set.contains a missing)
        → (Set.contains a (if is_missing s m b then Set.insert b missing else missing)
            || (Set.contains a rest && is_missing s m a))
          ≡ (Set.contains a missing || ((ref_eqb a b || Set.contains a rest) && is_missing s m a))
    step (inl h) c = rw (h, c) (ground (arith, at_b h, ref_iff a b))
    step (inr h) c = rw h (ground (arith, not_b h, ref_iff a b))

pub register-suspended :
    (child : BlockRef) (as_ : List BlockRef) (m : BlockManager)
    → (register child as_ m).suspended_blocks ≡ m.suspended_blocks
unfolding register
register-suspended child [] m = refl
register-suspended child (a ∷ rest) m = register-suspended child rest _

pub or_default-if :
    (b : Bool) (l : List BlockRef) (o : Option (List BlockRef))
    → or_default [] (if b then some l else o) ≡ (if b then l else or_default [] o)
or_default-if true l o = refl
or_default-if false l o = refl

register-waits :
    (child : BlockRef) (as_ : List BlockRef) (m : BlockManager) (x a : BlockRef)
    → waits (register child as_ m) x a ≡ (waits m x a || (ref_eqb x child && Set.contains a as_))
unfolding register waits Set.contains
register-waits child [] m x a = ground arith
register-waits child (b ∷ rest) m x a =
    let list = Set.insert child (or_default [] (Map.get b m.missing_ancestors)) in
    register-waits child rest _ x a
    ∙ ap (λ l. Set.contains x (or_default [] l) || (ref_eqb x child && Set.contains a rest))
        (get-insert a b list m.missing_ancestors)
    ∙ ap (λ l. Set.contains x l || (ref_eqb x child && Set.contains a rest))
        (or_default-if (ref_eqb a b) list (Map.get a m.missing_ancestors))
    ∙ step (Bool-cases (ref_eqb a b))
        (contains-insert x child (or_default [] (Map.get b m.missing_ancestors)))
  where
    step :
        (ref_eqb a b ≡ true) ⊎ (ref_eqb a b ≡ false)
        → Set.contains x (Set.insert child (or_default [] (Map.get b m.missing_ancestors)))
          ≡ (ref_eqb x child || Set.contains x (or_default [] (Map.get b m.missing_ancestors)))
        → (Set.contains x (
              if ref_eqb a b
              then Set.insert child (or_default [] (Map.get b m.missing_ancestors))
              else or_default [] (Map.get a m.missing_ancestors))
            || (ref_eqb x child && Set.contains a rest))
          ≡ (Set.contains x (or_default [] (Map.get a m.missing_ancestors))
              || (ref_eqb x child && (ref_eqb a b || Set.contains a rest)))
    step (inl same) c =
        let k : a ≡ b = (ref_iff a b).0 same in
        rw (same, c)
          (ground
            (arith, ap (λ r. Set.contains x (or_default [] (Map.get r m.missing_ancestors))) k))
    step (inr other) c = rw other

suspend-needs :
    (b : VerifiedBlock) (missing : List BlockRef) (m : BlockManager) (x a : BlockRef)
    → needs (suspend b missing m) x a
      ≡ (if ref_eqb x (reference b) then Set.contains a missing else needs m x a)
unfolding needs
suspend-needs b missing m x a =
    ap (λ o. misses o a) (get-insert x (reference b) _ m.suspended_blocks)
    ∙ misses-if (ref_eqb x (reference b)) _ (Map.get x m.suspended_blocks) a

accept_or_suspend-IsRegistered :
    (m : BlockManager) (b : VerifiedBlock) (missing : List BlockRef)
    → IsRegistered m
    → IsRegistered (accept_or_suspend m b missing).0
unfolding accept_or_suspend needs register waits
accept_or_suspend-IsRegistered m b [] k x y h = k x y h
accept_or_suspend-IsRegistered m b (a ∷ more) k x y h =
    let m' = register (reference b) (a ∷ more) m in
    let n : needs m' x y ≡ needs m x y =
      ap (λ l. misses (Map.get x l) y) (register-suspended (reference b) (a ∷ more) m) in
    register-waits (reference b) (a ∷ more) m x y
    ∙ settle_case (ref_eqb x (reference b)) (needs m x y) _ _ (k x y) (
        ap (λ z. if ref_eqb x (reference b) then Set.contains y (a ∷ more) else z) (sym n)
        ∙ sym (suspend-needs b (a ∷ more) m' x y)
        ∙ h)
  where
    settle_case :
        (here old wait new_ : Bool)
        → (old ≡ true → wait ≡ true)
        → (if here then new_ else old) ≡ true
        → (wait || (here && new_)) ≡ true
    settle_case here old wait new_ f h = ground arith

pub try_accept_one_block-IsRegistered :
    (s : DagState) (m : BlockManager) (b : VerifiedBlock)
    → IsRegistered m
    → IsRegistered (try_accept_one_block s m b).0
unfolding try_accept_one_block
try_accept_one_block-IsRegistered s m b k =
    if_intro (λ r. IsRegistered r.0) (contains_block s (reference b)) (m, TryAcceptResult.processed)
      (accept_or_suspend m b (missing_of s m [] b.ancestors)) (λ _. k)
      (λ _. accept_or_suspend-IsRegistered m b (missing_of s m [] b.ancestors) k)
