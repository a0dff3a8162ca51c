-- ===== src/Consensus/TestsManager.antt =====
-- The block manager on the first two blocks of a committee of one.
use dual_optimistic_l.Base.{not, ◌&&◌, ◌≡◌, refl, true, false, some, [], ◌∷◌, arith}
use dual_optimistic_l.Base.Map
use dual_optimistic_l.Base.Set
use dual_optimistic_l.Consensus.DagState
use dual_optimistic_l.Consensus.Linearizer
use dual_optimistic_l.Consensus.BlockManager
use dual_optimistic_l.Consensus.BlockManager.Accept
use dual_optimistic_l.Consensus.UniversalCommitter
use dual_optimistic_l.Consensus.BaseCommitter
use dual_optimistic_l.Consensus.BaseCommitter.Support
use dual_optimistic_l.Consensus.BaseCommitter.Decide
use dual_optimistic_l.Consensus.SoftCommit
use dual_optimistic_l.Consensus.StakeAggregator
use dual_optimistic_l.Consensus.ThresholdClock
use dual_optimistic_l.Consensus.Committee
use dual_optimistic_l.Consensus.Commit
use dual_optimistic_l.Consensus.DagState.Causal
use dual_optimistic_l.Consensus.Types
use dual_optimistic_l.Consensus.BlockManager.Accept.{Store}
use dual_optimistic_l.Consensus.BlockManager.{BlockManager}
use dual_optimistic_l.Base.Map.{Map}
use dual_optimistic_l.Consensus.Committee.{Committee}
use dual_optimistic_l.Consensus.DagState.{DagState}
use dual_optimistic_l.Consensus.Types.{Slot, ref_eqb, BlockRef, VerifiedBlock, reference, ref_key}
use dual_optimistic_l.Consensus.TestsSolo.{solo, b1, b2, solo_dag}
use dual_optimistic_l.Consensus.BlockManager.Waits.{needs, waits, IsRegistered}
use dual_optimistic_l.Consensus.BlockManager.Release.{try_unsuspend_children_blocks_lem}
use dual_optimistic_l.Consensus.BlockManager.Invariant.{try_accept_blocks_internal-IsKept}
use dual_optimistic_l.Consensus.BlockManager.Drop.{IsKept}
use dual_optimistic_l.Consensus.DagState.Store.{IsKeyed}
use dual_optimistic_l.Consensus.Commit.{DecidedLeader}

abbrev empty_store : Store
empty_store = record {
  dag_state = record solo_dag { blocks = []; highest_accepted_round = 0 };
  manager = BlockManager.new;
}

abbrev waiting : BlockManager
waiting = record {
  suspended_blocks =
      (reference b2, record { block = b2; missing_ancestors = reference b1 ∷ [] }) ∷ [];
  missing_ancestors = (reference b1, reference b2 ∷ []) ∷ [];
  missing_blocks = reference b1 ∷ [];
}

empty-IsRegistered : IsRegistered BlockManager.new
unfolding needs Map.get
empty-IsRegistered x a h = absurd (ground arith)

empty-IsKeyed : IsKeyed empty_store.dag_state
empty-IsKeyed = record { blocks = tt; genesis = (refl, tt); sorted = tt }

second_waits :
    Accept.try_accept_blocks_internal solo empty_store (b2 ∷ []) false
    ≡ some (
      record { dag_state = empty_store.dag_state; manager = waiting },
      record { accepted_blocks = []; missing = reference b1 ∷ [] },
    )
unfolding DagState.index_blocks DagState.keys_of DagState.new DagState.accept_block
    DagState.accept_blocks DagState.get_block DagState.get_blocks DagState.contains_block
    DagState.is_committed DagState.set_committed DagState.uncommitted_in
    DagState.get_uncommitted_blocks_at_slot DagState.get_uncommitted_blocks_at_round
    DagState.uncommitted_at_round DagState.record_commit DagState.derive_commit_digest
    Linearizer.uncommitted_ancestors Linearizer.expect_all Linearizer.push_all Linearizer.visit
    Linearizer.loop Linearizer.linearize_sub_dag Linearizer.commit_leader BlockManager.is_suspended
    BlockManager.is_missing BlockManager.missing_of BlockManager.register
    BlockManager.accept_or_suspend BlockManager.try_accept_one_block BlockManager.release
    BlockManager.release_all BlockManager.try_unsuspend_children_blocks Accept.finish_accept
    Accept.after_try Accept.accept_one Accept.insert_by_round Accept.sort_by_round
    Accept.accept_each Accept.try_accept_blocks_internal Accept.try_accept_blocks
    UniversalCommitter.decide_slot UniversalCommitter.visit_slot UniversalCommitter.visit_round
    UniversalCommitter.visit_rounds UniversalCommitter.decided_prefix UniversalCommitter.reverse
    UniversalCommitter.try_decide UniversalCommitter.leader_offsets UniversalCommitter.build
    BaseCommitter.leader_round BaseCommitter.decision_round BaseCommitter.wave_number
    BaseCommitter.elect_leader_index BaseCommitter.elect_leader Support.first_at Support.search_weak
    Support.find_from Support.find_supported_block Support.is_vote Support.vote_of
    Support.cached_vote Support.add_if Support.certify Support.is_certificate Support.blame_loop
    Support.enough_leader_blame Support.support_loop Support.enough_leader_support
    Decide.filter_blocks Decide.at_most_one Decide.try_direct_decide Decide.any_certificate
    Decide.from_anchors Decide.try_indirect_decide SoftCommit.new SoftCommit.agg_of
    SoftCommit.add_vote SoftCommit.is_leader_round SoftCommit.leader_at_round StakeAggregator.add
    StakeAggregator.clear ThresholdClock.new ThresholdClock.add_current ThresholdClock.catch_up
    ThresholdClock.add_block Committee.stake Committee.reached_quorum Commit.insert_block
    Commit.sort_sub_dag_blocks Commit.status_round Commit.is_decided Commit.into_decided_leader
    Causal.is_pushed Causal.push_ancestor Causal.push_ancestors Causal.causal_loop
    Causal.get_causal_blocks Types.genesis_blocks Types.genesis_from Types.genesis_block
    Types.new_verified Types.compute_digest Map.get Map.insert Map.remove Set.contains Set.insert
    Set.remove
second_waits = refl

try_accept_blocks_internal-IsKept_example :
    IsKept empty_store.dag_state (record { dag_state = empty_store.dag_state; manager = waiting })
try_accept_blocks_internal-IsKept_example =
    try_accept_blocks_internal-IsKept solo empty_store (b2 ∷ []) false
      {w' = record { dag_state = empty_store.dag_state; manager = waiting }}
      {a = record { accepted_blocks = []; missing = reference b1 ∷ [] }} empty-IsRegistered
      empty-IsKeyed second_waits

waiting-IsRegistered : IsRegistered waiting
waiting-IsRegistered =
    (try_accept_blocks_internal-IsKept solo empty_store (b2 ∷ []) false
      {w' = record { dag_state = empty_store.dag_state; manager = waiting }}
      {a = record { accepted_blocks = []; missing = reference b1 ∷ [] }} empty-IsRegistered
      empty-IsKeyed second_waits).0

try_unsuspend_children_blocks_lem_example :
    let m' = (BlockManager.try_unsuspend_children_blocks (reference b1) waiting).0 in
    (needs m' (reference b2) (reference b1) ≡ (
      needs waiting (reference b2) (reference b1) && not (ref_eqb (reference b1) (reference b1))))
    × (waits m' (reference b2) (reference b1) ≡ (
        waits waiting (reference b2) (reference b1) && not (ref_eqb (reference b1) (reference b1))))
    × (needs m' (reference b2) (reference b1) ≡ true
        → waits m' (reference b2) (reference b1) ≡ true)
try_unsuspend_children_blocks_lem_example =
    try_unsuspend_children_blocks_lem (reference b1) waiting (reference b2) (reference b1)
      waiting-IsRegistered
