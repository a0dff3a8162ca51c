-- ===== src/Consensus/TestsNode.antt =====
-- A run of a committee of one: five blocks, the second of which comes first and waits.
use dual_optimistic_l.Base.{map, ◌≤◌, ◌≡◌, refl, List, [], ◌∷◌}
use dual_optimistic_l.Base.Map
use dual_optimistic_l.Base.Set
use dual_optimistic_l.Consensus.DagState
use dual_optimistic_l.Consensus.Linearizer
use dual_optimistic_l.Consensus.BlockManager
use dual_optimistic_l.Consensus.BlockManager.Accept
use dual_optimistic_l.Consensus.Node
use dual_optimistic_l.Consensus.UniversalCommitter
use dual_optimistic_l.Consensus.BaseCommitter
use dual_optimistic_l.Consensus.BaseCommitter.Support
use dual_optimistic_l.Consensus.BaseCommitter.Decide
use dual_optimistic_l.Consensus.SoftCommit
use dual_optimistic_l.Consensus.StakeAggregator
use dual_optimistic_l.Consensus.ThresholdClock
use dual_optimistic_l.Consensus.Committee
use dual_optimistic_l.Consensus.Commit
use dual_optimistic_l.Consensus.DagState.Causal
use dual_optimistic_l.Consensus.Types
use dual_optimistic_l.Consensus.BlockManager.Accept.{Store}
use dual_optimistic_l.Consensus.Committee.{Committee}
use dual_optimistic_l.Consensus.DagState.{DagState}
use dual_optimistic_l.Consensus.DagState.Outcome.{done}
use dual_optimistic_l.Consensus.Node.{ConsensusNode, to_shared_block, to_shared_block_ref}
use dual_optimistic_l.Consensus.Node.Events.{InOrder, last_index, last_round}
use dual_optimistic_l.Consensus.Node.Order.{IsReady, accept_batches, accept_batches_lem}
use dual_optimistic_l.Consensus.Node.Start.{new-IsReady}
use dual_optimistic_l.Consensus.Types.{BlockRef, VerifiedBlock, reference, ref_key}
use dual_optimistic_l.Shared.{ConsensusEvent}
use dual_optimistic_l.Consensus.TestsSolo.{
  solo, checksum, b1, b2, b3, b4, b5, solo_dag, genesis_zero,
}

abbrev batches : List (List VerifiedBlock)
batches = (b2 ∷ []) ∷ (b1 ∷ b3 ∷ b4 ∷ b5 ∷ []) ∷ []

abbrev soft_three : ConsensusEvent
soft_three =
    ConsensusEvent.soft_commit 3 (to_shared_block_ref (reference b3))
      ((3 ∷ []) ∷ (2 ∷ []) ∷ (1 ∷ []) ∷ [])

abbrev hard_three : ConsensusEvent
hard_three = ConsensusEvent.hard_commit (record {
  leader = to_shared_block_ref (reference b3);
  blocks = map to_shared_block (b1 ∷ b2 ∷ b3 ∷ []);
  timestamp_ms = 3;
  commit_index = 1;
})

abbrev last_node : ConsensusNode
last_node = record {
  dag_state = record solo_dag {
    committed = reference genesis_zero ∷ reference b1 ∷ reference b2 ∷ reference b3 ∷ [];
    last_commit_index = 1;
    last_commit_digest = 7;
    last_commit_timestamp_ms = 3;
  };
  block_manager = record {
    suspended_blocks = [];
    missing_ancestors = [];
    missing_blocks = reference b1 ∷ [];
  };
  soft_commit = record {
    votes = (reference b3, record { votes = 0 ∷ []; stake = 1 }) ∷ [];
    soft_committed = reference b3 ∷ [];
  };
  last_decided = record { round = 3; authority = 0 };
}

ran :
    accept_batches checksum solo (Node.new checksum solo) batches
    ≡ done (last_node, soft_three ∷ hard_three ∷ [])
unfolding accept_batches DagState.index_blocks DagState.keys_of DagState.new DagState.accept_block
    DagState.accept_blocks DagState.get_block DagState.get_blocks DagState.contains_block
    DagState.is_committed DagState.set_committed DagState.uncommitted_in
    DagState.get_uncommitted_blocks_at_slot DagState.get_uncommitted_blocks_at_round
    DagState.uncommitted_at_round DagState.record_commit DagState.derive_commit_digest
    Linearizer.uncommitted_ancestors Linearizer.expect_all Linearizer.push_all Linearizer.visit
    Linearizer.loop Linearizer.linearize_sub_dag Linearizer.commit_leader BlockManager.is_suspended
    BlockManager.is_missing BlockManager.missing_of BlockManager.register
    BlockManager.accept_or_suspend BlockManager.try_accept_one_block BlockManager.release
    BlockManager.release_all BlockManager.try_unsuspend_children_blocks Accept.finish_accept
    Accept.after_try Accept.accept_one Accept.insert_by_round Accept.sort_by_round
    Accept.accept_each Accept.try_accept_blocks_internal Accept.try_accept_blocks Node.new
    Node.to_shared_block Node.to_shared_subdag Node.soft_event Node.check_ancestor
    Node.check_ancestors Node.check_soft_commit Node.check_soft_commits Node.apply_decided
    Node.apply_all Node.try_hard_commit Node.accept_blocks UniversalCommitter.decide_slot
    UniversalCommitter.visit_slot UniversalCommitter.visit_round UniversalCommitter.visit_rounds
    UniversalCommitter.decided_prefix UniversalCommitter.reverse UniversalCommitter.try_decide
    UniversalCommitter.leader_offsets UniversalCommitter.build BaseCommitter.leader_round
    BaseCommitter.decision_round BaseCommitter.wave_number BaseCommitter.elect_leader_index
    BaseCommitter.elect_leader Support.first_at Support.search_weak Support.find_from
    Support.find_supported_block Support.is_vote Support.vote_of Support.cached_vote Support.add_if
    Support.certify Support.is_certificate Support.blame_loop Support.enough_leader_blame
    Support.support_loop Support.enough_leader_support Decide.filter_blocks Decide.at_most_one
    Decide.try_direct_decide Decide.any_certificate Decide.from_anchors Decide.try_indirect_decide
    SoftCommit.new SoftCommit.agg_of SoftCommit.add_vote SoftCommit.is_leader_round
    SoftCommit.leader_at_round StakeAggregator.add StakeAggregator.clear ThresholdClock.new
    ThresholdClock.add_current ThresholdClock.catch_up ThresholdClock.add_block Committee.stake
    Committee.reached_quorum Commit.insert_block Commit.sort_sub_dag_blocks Commit.status_round
    Commit.is_decided Commit.into_decided_leader Causal.is_pushed Causal.push_ancestor
    Causal.push_ancestors Causal.causal_loop Causal.get_causal_blocks Types.genesis_blocks
    Types.genesis_from Types.genesis_block Types.new_verified Types.compute_digest Map.get
    Map.insert Map.remove Set.contains Set.insert Set.remove
ran = refl

accept_batches_lem_example :
    IsReady solo last_node
    × InOrder 0 0 (soft_three ∷ hard_three ∷ [])
    × (1 ≡ last_index 0 (soft_three ∷ hard_three ∷ []))
    × (last_round 0 (soft_three ∷ hard_three ∷ []) ≤ 3)
unfolding Node.new DagState.new
accept_batches_lem_example =
    accept_batches_lem checksum solo (Node.new checksum solo) batches {n' = last_node}
      {es = soft_three ∷ hard_three ∷ []} (new-IsReady checksum solo refl) ran
