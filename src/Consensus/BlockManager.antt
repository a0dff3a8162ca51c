-- ===== src/Consensus/BlockManager.antt =====
-- crates/consensus/src/block_manager.rs: blocks wait here for the ancestors that they miss. The DAG,
-- shared with the rest of the node, is an argument.
pub mod Accept
pub mod Waits
pub mod Settle
pub mod Release
pub mod Growth
pub mod Drop
pub mod Invariant
use dual_optimistic_l.Base.{
  ℕ, Bool, true, false, not, ◌&&◌, ◌||◌, Option, none, some, List, [], ◌∷◌, ◌++◌, keep, ltb, leb,
  ◌==◌, if◌then◌else◌,
}
use dual_optimistic_l.Base.Map
use dual_optimistic_l.Base.Map.{Map}
use dual_optimistic_l.Base.Map.Values.{or_default, update}
use dual_optimistic_l.Base.Set
use dual_optimistic_l.Consensus.Committee.{Committee}
use dual_optimistic_l.Consensus.DagState
use dual_optimistic_l.Consensus.DagState.{DagState, contains_block, gc_round}
use dual_optimistic_l.Consensus.Types.{BlockRef, VerifiedBlock, reference, ref_key, genesis_round}

pub record SuspendedBlock : Type 0 where
  pub block : VerifiedBlock
  pub missing_ancestors : List BlockRef

pub data TryAcceptResult : Type 0 where
  accepted : VerifiedBlock → TryAcceptResult
  suspended : List BlockRef → TryAcceptResult
  processed : TryAcceptResult

pub record BlockManager : Type 0 where
  pub suspended_blocks : Map BlockRef SuspendedBlock
  pub missing_ancestors : Map BlockRef (List BlockRef)
  pub missing_blocks : List BlockRef

abbrev pub new : BlockManager
new = record { suspended_blocks = []; missing_ancestors = []; missing_blocks = [] }

abbrev pub has {ℓ} : {A : Type ℓ} → Option A → Bool
has none = false
has (some a) = true

unfoldable pub is_suspended : BlockManager → BlockRef → Bool
is_suspended m r = has (Map.get r m.suspended_blocks)

-- The test of an ancestor in `try_accept_one_block`.
unfoldable pub is_missing : DagState → BlockManager → BlockRef → Bool
is_missing s m a =
    (not (a.round == genesis_round) && not (leb a.round (gc_round s)))
    && (not (contains_block s a) && not (is_suspended m a))

unfoldable pub missing_of : DagState → BlockManager → List BlockRef → List BlockRef → List BlockRef
missing_of s m missing [] = missing
missing_of s m missing (a ∷ rest) =
    missing_of s m (if is_missing s m a then Set.insert a missing else missing) rest

-- `missing_ancestors.entry(a).or_default().insert(child)`, for each missing ancestor.
unfoldable pub register : BlockRef → List BlockRef → BlockManager → BlockManager
register child [] m = m
register child (a ∷ rest) m = register child rest (record m {
  missing_ancestors =
      Map.insert a (Set.insert child (or_default [] (Map.get a m.missing_ancestors)))
        m.missing_ancestors;
  missing_blocks = Set.insert a m.missing_blocks;
})

abbrev pub suspend : VerifiedBlock → List BlockRef → BlockManager → BlockManager
suspend b missing m = record m {
  suspended_blocks =
      Map.insert (reference b) (record { block = b; missing_ancestors = missing })
        m.suspended_blocks;
}

-- A block with no missing ancestor is accepted, any other is suspended.
unfoldable pub accept_or_suspend :
    BlockManager → VerifiedBlock → List BlockRef → BlockManager × TryAcceptResult
accept_or_suspend m b [] = (m, TryAcceptResult.accepted b)
accept_or_suspend m b (a ∷ more) = (
  suspend b (a ∷ more) (register (reference b) (a ∷ more) m),
  TryAcceptResult.suspended (a ∷ more),
)

unfoldable pub try_accept_one_block :
    DagState → BlockManager → VerifiedBlock → BlockManager × TryAcceptResult
try_accept_one_block s m b =
    if contains_block s (reference b)
    then (m, TryAcceptResult.processed)
    else accept_or_suspend m b (missing_of s m [] b.ancestors)

-- A suspended block whose last missing ancestor has come is released.
abbrev pub settle :
    BlockRef → VerifiedBlock → List BlockRef → BlockManager → BlockManager × List VerifiedBlock
settle child b [] m = (record m { suspended_blocks = Map.remove child m.suspended_blocks }, b ∷ [])
settle child b (a ∷ more) m = (
  record m {
    suspended_blocks =
        Map.insert child (record { block = b; missing_ancestors = a ∷ more }) m.suspended_blocks;
  },
  [],
)

-- One child of a newly accepted block.
unfoldable pub release : BlockRef → BlockRef → BlockManager → BlockManager × List VerifiedBlock
release newly_accepted child m = elim (Map.get child m.suspended_blocks) [
  | none ↦ (m, [])
  | some sb ↦ settle child sb.block (Set.remove newly_accepted sb.missing_ancestors) m
]

unfoldable pub release_all :
    BlockRef → List BlockRef → BlockManager → BlockManager × List VerifiedBlock
release_all newly_accepted [] m = (m, [])
release_all newly_accepted (child ∷ rest) m =
    let first = release newly_accepted child m in
    let more = release_all newly_accepted rest first.0 in (more.0, first.1 ++ more.1)

unfoldable pub try_unsuspend_children_blocks :
    BlockRef → BlockManager → BlockManager × List VerifiedBlock
try_unsuspend_children_blocks newly_accepted m = elim (Map.get newly_accepted m.missing_ancestors) [
  | none ↦ (m, [])
  | some waiting ↦
      release_all newly_accepted waiting
        (record m { missing_ancestors = Map.remove newly_accepted m.missing_ancestors })
]

-- Take a child off the lists of the ancestors it misses, where they have one.
unfoldable pub forget_child :
    BlockRef → List BlockRef → Map BlockRef (List BlockRef) → Map BlockRef (List BlockRef)
forget_child child [] waiting = waiting
forget_child child (a ∷ rest) waiting =
    forget_child child rest (update a (Set.remove child) waiting)

unfoldable pub drop_suspended : BlockRef → BlockManager → BlockManager
drop_suspended r m = elim (Map.get r m.suspended_blocks) [
  | none ↦ m
  | some sb ↦ record m {
    suspended_blocks = Map.remove r m.suspended_blocks;
    missing_ancestors = forget_child r sb.missing_ancestors m.missing_ancestors;
  }
]

-- The loop of `try_find_blocks`.
unfoldable pub find_each :
    DagState → List BlockRef → BlockManager → List BlockRef → BlockManager × List BlockRef
find_each s [] m missing = (m, missing)
find_each s (r ∷ rest) m missing =
    let absent = not (contains_block s r) && not (is_suspended m r) in
    find_each s rest
      (if absent
        then record m {
          missing_blocks = Set.insert r m.missing_blocks;
          missing_ancestors =
              Map.insert r (or_default [] (Map.get r m.missing_ancestors)) m.missing_ancestors;
        }
        else m)
      (if absent then Set.insert r missing else missing)

unfoldable pub try_find_blocks :
    DagState → BlockManager → List BlockRef → BlockManager × List BlockRef
try_find_blocks s m refs = find_each s (keep (λ r. ltb (gc_round s) r.round) refs) m []

abbrev pub highest_received_round : DagState → ℕ
highest_received_round s = s.highest_accepted_round
