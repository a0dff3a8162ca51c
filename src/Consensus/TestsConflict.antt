-- ===== src/Consensus/TestsConflict.antt =====
-- A committee of one whose authority has two blocks at the round above the leader.
use dual_optimistic_l.Base.{Bool, ◌<◌, sym, All, ◌≡◌, refl, true, some, [], ◌∷◌, ◌==◌, arith}
use dual_optimistic_l.Base.Map
use dual_optimistic_l.Base.Set
use dual_optimistic_l.Consensus.DagState
use dual_optimistic_l.Consensus.Linearizer
use dual_optimistic_l.Consensus.BlockManager
use dual_optimistic_l.Consensus.BlockManager.Accept
use dual_optimistic_l.Consensus.UniversalCommitter
use dual_optimistic_l.Consensus.BaseCommitter
use dual_optimistic_l.Consensus.BaseCommitter.Support
use dual_optimistic_l.Consensus.BaseCommitter.Decide
use dual_optimistic_l.Consensus.SoftCommit
use dual_optimistic_l.Consensus.StakeAggregator
use dual_optimistic_l.Consensus.ThresholdClock
use dual_optimistic_l.Consensus.Committee
use dual_optimistic_l.Consensus.Commit
use dual_optimistic_l.Consensus.DagState.Causal
use dual_optimistic_l.Consensus.Types
use dual_optimistic_l.Consensus.BlockManager.Accept.{Store}
use dual_optimistic_l.Consensus.BlockManager.{BlockManager}
use dual_optimistic_l.Base.Map.{Map}
use mathlib.Core.Path.{subst}
use dual_optimistic_l.Consensus.Committee.{Committee}
use dual_optimistic_l.Consensus.DagState.{DagState}
use dual_optimistic_l.Consensus.DagState.Outcome.{done}
use dual_optimistic_l.Consensus.Types.{Slot, ref_eqb, BlockRef, VerifiedBlock, reference, ref_key}
use dual_optimistic_l.Consensus.TestsSolo.{solo, b1, b2, b3, b4, b5, solo_dag, genesis_zero}
use dual_optimistic_l.Consensus.BaseCommitter.Support.Supports.{IsCausal}
use dual_optimistic_l.Consensus.BaseCommitter.Support.Certificates.{HasVotes}
use dual_optimistic_l.Consensus.Commit.{DecidedLeader}
use dual_optimistic_l.Base.{ℕ}
use dual_optimistic_l.Consensus.Committee.{reached_validity}
use dual_optimistic_l.Consensus.Committee.Quorum.{weight}
use dual_optimistic_l.Consensus.BaseCommitter.Support.Equivocation.{
  Equivocates, blame_and_certificate_lem,
}
use dual_optimistic_l.Consensus.BaseCommitter
use dual_optimistic_l.Consensus.BaseCommitter.Support
use dual_optimistic_l.Consensus.BaseCommitter.Support.Certificates.{HasVotes}
use dual_optimistic_l.Consensus.Committee
use dual_optimistic_l.Consensus.DagState
use dual_optimistic_l.Consensus.StakeAggregator
use dual_optimistic_l.Consensus.TestsSolo.{b1, b2, b3, b4, b5, genesis_zero}
use dual_optimistic_l.Base.{◌<◌, All, sym}
use dual_optimistic_l.Base.Set
use dual_optimistic_l.Base.Key.{nat_key}
use dual_optimistic_l.Consensus.Types.{BlockRef, VerifiedBlock, reference}
use mathlib.Core.Path.{subst}
use dual_optimistic_l.Base.{true}

abbrev rival : VerifiedBlock
rival = record {
  block = record {
    epoch = 0;
    round = 4;
    author = 0;
    timestamp_ms = 4;
    ancestors = [];
    transactions = [];
  };
  digest = 16;
}

abbrev entry : VerifiedBlock → BlockRef × VerifiedBlock
entry b = (reference b, b)

abbrev split_dag : DagState
split_dag = record solo_dag {
  blocks = entry b1 ∷ entry b2 ∷ entry b3 ∷ entry b4 ∷ entry rival ∷ entry b5 ∷ [];
}

split_dag-IsCausal : IsCausal split_dag
unfolding DagState.get_block Map.get
split_dag-IsCausal = record {
  keyed = record {
    blocks = (refl, (refl, (refl, (refl, (refl, (refl, tt))))));
    genesis = (refl, tt);
    sorted = ground arith;
  };
  blocks = (
    ((omega arith, (genesis_zero, refl)), tt),
    (
      ((omega arith, (b1, refl)), tt),
      (
        ((omega arith, (b2, refl)), tt),
        (((omega arith, (b3, refl)), tt), (tt, (((omega arith, (b4, refl)), tt), tt))),
      ),
    ),
  );
  genesis = (tt, tt);
}

two_at_four : DagState.uncommitted_at_round split_dag 4 ≡ b4 ∷ rival ∷ []
unfolding DagState.index_blocks DagState.keys_of DagState.new DagState.accept_block
    DagState.accept_blocks DagState.get_block DagState.get_blocks DagState.contains_block
    DagState.is_committed DagState.set_committed DagState.uncommitted_in
    DagState.get_uncommitted_blocks_at_slot DagState.get_uncommitted_blocks_at_round
    DagState.uncommitted_at_round DagState.record_commit DagState.derive_commit_digest
    Linearizer.uncommitted_ancestors Linearizer.expect_all Linearizer.push_all Linearizer.visit
    Linearizer.loop Linearizer.linearize_sub_dag Linearizer.commit_leader BlockManager.is_suspended
    BlockManager.is_missing BlockManager.missing_of BlockManager.register
    BlockManager.accept_or_suspend BlockManager.try_accept_one_block BlockManager.release
    BlockManager.release_all BlockManager.try_unsuspend_children_blocks Accept.finish_accept
    Accept.after_try Accept.accept_one Accept.insert_by_round Accept.sort_by_round
    Accept.accept_each Accept.try_accept_blocks_internal Accept.try_accept_blocks
    UniversalCommitter.decide_slot UniversalCommitter.visit_slot UniversalCommitter.visit_round
    UniversalCommitter.visit_rounds UniversalCommitter.decided_prefix UniversalCommitter.reverse
    UniversalCommitter.try_decide UniversalCommitter.leader_offsets UniversalCommitter.build
    BaseCommitter.leader_round BaseCommitter.decision_round BaseCommitter.wave_number
    BaseCommitter.elect_leader_index BaseCommitter.elect_leader Support.first_at Support.search_weak
    Support.find_from Support.find_supported_block Support.is_vote Support.vote_of
    Support.cached_vote Support.add_if Support.certify Support.is_certificate Support.blame_loop
    Support.enough_leader_blame Support.support_loop Support.enough_leader_support
    Decide.filter_blocks Decide.at_most_one Decide.try_direct_decide Decide.any_certificate
    Decide.from_anchors Decide.try_indirect_decide SoftCommit.new SoftCommit.agg_of
    SoftCommit.add_vote SoftCommit.is_leader_round SoftCommit.leader_at_round StakeAggregator.add
    StakeAggregator.clear ThresholdClock.add_current ThresholdClock.catch_up
    ThresholdClock.add_block Committee.stake Committee.reached_quorum Commit.insert_block
    Commit.sort_sub_dag_blocks Commit.status_round Commit.is_decided Commit.into_decided_leader
    Causal.is_pushed Causal.push_ancestor Causal.push_ancestors Causal.causal_loop
    Causal.get_causal_blocks Types.genesis_blocks Types.genesis_from Types.genesis_block
    Types.new_verified Types.compute_digest Map.get Map.insert Map.remove Set.contains Set.insert
    Set.remove
two_at_four = refl

four_known : All (λ b. b.author < 1) (DagState.uncommitted_at_round split_dag 4)
four_known = subst (All (λ b. b.author < 1)) (sym two_at_four) (omega arith, (omega arith, tt))

split_votes : HasVotes solo split_dag b3 (λ a. a.round == 4) b5
unfolding DagState.index_blocks DagState.keys_of DagState.new DagState.accept_block
    DagState.accept_blocks DagState.get_block DagState.get_blocks DagState.contains_block
    DagState.is_committed DagState.set_committed DagState.uncommitted_in
    DagState.get_uncommitted_blocks_at_slot DagState.get_uncommitted_blocks_at_round
    DagState.uncommitted_at_round DagState.record_commit DagState.derive_commit_digest
    Linearizer.uncommitted_ancestors Linearizer.expect_all Linearizer.push_all Linearizer.visit
    Linearizer.loop Linearizer.linearize_sub_dag Linearizer.commit_leader BlockManager.is_suspended
    BlockManager.is_missing BlockManager.missing_of BlockManager.register
    BlockManager.accept_or_suspend BlockManager.try_accept_one_block BlockManager.release
    BlockManager.release_all BlockManager.try_unsuspend_children_blocks Accept.finish_accept
    Accept.after_try Accept.accept_one Accept.insert_by_round Accept.sort_by_round
    Accept.accept_each Accept.try_accept_blocks_internal Accept.try_accept_blocks
    UniversalCommitter.decide_slot UniversalCommitter.visit_slot UniversalCommitter.visit_round
    UniversalCommitter.visit_rounds UniversalCommitter.decided_prefix UniversalCommitter.reverse
    UniversalCommitter.try_decide UniversalCommitter.leader_offsets UniversalCommitter.build
    BaseCommitter.leader_round BaseCommitter.decision_round BaseCommitter.wave_number
    BaseCommitter.elect_leader_index BaseCommitter.elect_leader Support.first_at Support.search_weak
    Support.find_from Support.find_supported_block Support.is_vote Support.vote_of
    Support.cached_vote Support.add_if Support.certify Support.is_certificate Support.blame_loop
    Support.enough_leader_blame Support.support_loop Support.enough_leader_support
    Decide.filter_blocks Decide.at_most_one Decide.try_direct_decide Decide.any_certificate
    Decide.from_anchors Decide.try_indirect_decide SoftCommit.new SoftCommit.agg_of
    SoftCommit.add_vote SoftCommit.is_leader_round SoftCommit.leader_at_round StakeAggregator.add
    StakeAggregator.clear ThresholdClock.add_current ThresholdClock.catch_up
    ThresholdClock.add_block Committee.stake Committee.reached_quorum Commit.insert_block
    Commit.sort_sub_dag_blocks Commit.status_round Commit.is_decided Commit.into_decided_leader
    Causal.is_pushed Causal.push_ancestor Causal.push_ancestors Causal.causal_loop
    Causal.get_causal_blocks Types.genesis_blocks Types.genesis_from Types.genesis_block
    Types.new_verified Types.compute_digest Map.get Map.insert Map.remove Set.contains Set.insert
    Set.remove
split_votes = ((refl, tt), (omega arith, tt))

split_blame : Support.enough_leader_blame solo split_dag 4 0 ≡ some true
unfolding DagState.index_blocks DagState.keys_of DagState.new DagState.accept_block
    DagState.accept_blocks DagState.get_block DagState.get_blocks DagState.contains_block
    DagState.is_committed DagState.set_committed DagState.uncommitted_in
    DagState.get_uncommitted_blocks_at_slot DagState.get_uncommitted_blocks_at_round
    DagState.uncommitted_at_round DagState.record_commit DagState.derive_commit_digest
    Linearizer.uncommitted_ancestors Linearizer.expect_all Linearizer.push_all Linearizer.visit
    Linearizer.loop Linearizer.linearize_sub_dag Linearizer.commit_leader BlockManager.is_suspended
    BlockManager.is_missing BlockManager.missing_of BlockManager.register
    BlockManager.accept_or_suspend BlockManager.try_accept_one_block BlockManager.release
    BlockManager.release_all BlockManager.try_unsuspend_children_blocks Accept.finish_accept
    Accept.after_try Accept.accept_one Accept.insert_by_round Accept.sort_by_round
    Accept.accept_each Accept.try_accept_blocks_internal Accept.try_accept_blocks
    UniversalCommitter.decide_slot UniversalCommitter.visit_slot UniversalCommitter.visit_round
    UniversalCommitter.visit_rounds UniversalCommitter.decided_prefix UniversalCommitter.reverse
    UniversalCommitter.try_decide UniversalCommitter.leader_offsets UniversalCommitter.build
    BaseCommitter.leader_round BaseCommitter.decision_round BaseCommitter.wave_number
    BaseCommitter.elect_leader_index BaseCommitter.elect_leader Support.first_at Support.search_weak
    Support.find_from Support.find_supported_block Support.is_vote Support.vote_of
    Support.cached_vote Support.add_if Support.certify Support.is_certificate Support.blame_loop
    Support.enough_leader_blame Support.support_loop Support.enough_leader_support
    Decide.filter_blocks Decide.at_most_one Decide.try_direct_decide Decide.any_certificate
    Decide.from_anchors Decide.try_indirect_decide SoftCommit.new SoftCommit.agg_of
    SoftCommit.add_vote SoftCommit.is_leader_round SoftCommit.leader_at_round StakeAggregator.add
    StakeAggregator.clear ThresholdClock.add_current ThresholdClock.catch_up
    ThresholdClock.add_block Committee.stake Committee.reached_quorum Commit.insert_block
    Commit.sort_sub_dag_blocks Commit.status_round Commit.is_decided Commit.into_decided_leader
    Causal.is_pushed Causal.push_ancestor Causal.push_ancestors Causal.causal_loop
    Causal.get_causal_blocks Types.genesis_blocks Types.genesis_from Types.genesis_block
    Types.new_verified Types.compute_digest Map.get Map.insert Map.remove Set.contains Set.insert
    Set.remove
split_blame = refl

split_certificate :
    Support.is_certificate solo split_dag b5 b3 [] ≡ done (true, (reference b4, true) ∷ [])
unfolding DagState.index_blocks DagState.keys_of DagState.new DagState.accept_block
    DagState.accept_blocks DagState.get_block DagState.get_blocks DagState.contains_block
    DagState.is_committed DagState.set_committed DagState.uncommitted_in
    DagState.get_uncommitted_blocks_at_slot DagState.get_uncommitted_blocks_at_round
    DagState.uncommitted_at_round DagState.record_commit DagState.derive_commit_digest
    Linearizer.uncommitted_ancestors Linearizer.expect_all Linearizer.push_all Linearizer.visit
    Linearizer.loop Linearizer.linearize_sub_dag Linearizer.commit_leader BlockManager.is_suspended
    BlockManager.is_missing BlockManager.missing_of BlockManager.register
    BlockManager.accept_or_suspend BlockManager.try_accept_one_block BlockManager.release
    BlockManager.release_all BlockManager.try_unsuspend_children_blocks Accept.finish_accept
    Accept.after_try Accept.accept_one Accept.insert_by_round Accept.sort_by_round
    Accept.accept_each Accept.try_accept_blocks_internal Accept.try_accept_blocks
    UniversalCommitter.decide_slot UniversalCommitter.visit_slot UniversalCommitter.visit_round
    UniversalCommitter.visit_rounds UniversalCommitter.decided_prefix UniversalCommitter.reverse
    UniversalCommitter.try_decide UniversalCommitter.leader_offsets UniversalCommitter.build
    BaseCommitter.leader_round BaseCommitter.decision_round BaseCommitter.wave_number
    BaseCommitter.elect_leader_index BaseCommitter.elect_leader Support.first_at Support.search_weak
    Support.find_from Support.find_supported_block Support.is_vote Support.vote_of
    Support.cached_vote Support.add_if Support.certify Support.is_certificate Support.blame_loop
    Support.enough_leader_blame Support.support_loop Support.enough_leader_support
    Decide.filter_blocks Decide.at_most_one Decide.try_direct_decide Decide.any_certificate
    Decide.from_anchors Decide.try_indirect_decide SoftCommit.new SoftCommit.agg_of
    SoftCommit.add_vote SoftCommit.is_leader_round SoftCommit.leader_at_round StakeAggregator.add
    StakeAggregator.clear ThresholdClock.add_current ThresholdClock.catch_up
    ThresholdClock.add_block Committee.stake Committee.reached_quorum Commit.insert_block
    Commit.sort_sub_dag_blocks Commit.status_round Commit.is_decided Commit.into_decided_leader
    Causal.is_pushed Causal.push_ancestor Causal.push_ancestors Causal.causal_loop
    Causal.get_causal_blocks Types.genesis_blocks Types.genesis_from Types.genesis_block
    Types.new_verified Types.compute_digest Map.get Map.insert Map.remove Set.contains Set.insert
    Set.remove
split_certificate = refl

solo_made : Committee.new 0 (record { stake = 1; hostname = [] } ∷ []) ≡ some solo
unfolding Committee.new Committee.with_total Committee.stake_sum
solo_made = refl

blame_and_certificate_lem_example :
    (both : ℕ → Bool) × (reached_validity solo (weight solo both) ≡ true)
    × ((j : ℕ) → both j ≡ true → Equivocates split_dag b5 b3 j)
blame_and_certificate_lem_example =
    blame_and_certificate_lem 0 (record { stake = 1; hostname = [] } ∷ []) {c = solo} split_dag b5
      b3 (λ a. a.round == 4) {cache = (reference b4, true) ∷ []} (omega arith) solo_made
      (omega arith) split_dag-IsCausal four_known split_votes (omega arith, tt) split_blame
      split_certificate
