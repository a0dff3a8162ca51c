-- ===== src/Consensus/TestsRules.antt =====
-- The commit rules on the DAG of a committee of one.
use dual_optimistic_l.Base.{
  ◌<◌, ◌↔◌, Bool, sym, Option, All, ◌≡◌, refl, true, some, [], ◌∷◌, ◌==◌, arith, ℕ, ◌≤◌, ◌+◌,
}
use dual_optimistic_l.Base.Map
use dual_optimistic_l.Base.Set
use dual_optimistic_l.Consensus.DagState
use dual_optimistic_l.Consensus.Linearizer
use dual_optimistic_l.Consensus.BlockManager
use dual_optimistic_l.Consensus.BlockManager.Accept
use dual_optimistic_l.Consensus.UniversalCommitter
use dual_optimistic_l.Consensus.BaseCommitter
use dual_optimistic_l.Consensus.BaseCommitter.Support
use dual_optimistic_l.Consensus.BaseCommitter.Decide
use dual_optimistic_l.Consensus.SoftCommit
use dual_optimistic_l.Consensus.StakeAggregator
use dual_optimistic_l.Consensus.ThresholdClock
use dual_optimistic_l.Consensus.Committee
use dual_optimistic_l.Consensus.Commit
use dual_optimistic_l.Consensus.DagState.Causal
use dual_optimistic_l.Consensus.Types
use dual_optimistic_l.Consensus.BlockManager.Accept.{Store}
use dual_optimistic_l.Consensus.BlockManager.{BlockManager}
use dual_optimistic_l.Base.Map.{Map}
use mathlib.Core.Path.{subst}
use dual_optimistic_l.Consensus.Committee.{Committee}
use dual_optimistic_l.Consensus.DagState.{DagState}
use dual_optimistic_l.Consensus.DagState.Outcome.{done, has_ended}
use dual_optimistic_l.Consensus.Types.{Slot, ref_eqb, BlockRef, VerifiedBlock, reference, ref_key}
use dual_optimistic_l.Consensus.TestsSolo.{solo, b1, b2, b3, b4, b5, solo_dag, genesis_zero}
use dual_optimistic_l.Consensus.BaseCommitter.Support.Search.{find_supported_block_lem}
use dual_optimistic_l.Consensus.BaseCommitter.Support.Supports.{
  HasAncestors, IsCausal, Supports, IsRight,
}
use dual_optimistic_l.Consensus.BaseCommitter.Support.Tally.{voters_of, have_quorum}
use dual_optimistic_l.Consensus.BaseCommitter.Support.Blame.{BlamesLeader, enough_leader_blame_lem}
use dual_optimistic_l.Consensus.Committee.{reached_quorum}
use dual_optimistic_l.Consensus.Committee.Quorum.{weight}
use dual_optimistic_l.Consensus.BaseCommitter.Support.Certificates.{
  certifies, HasVotes, enough_leader_support_lem,
}
use dual_optimistic_l.Consensus.DagState.Store.{IsKeyed}
use dual_optimistic_l.Consensus.Commit.{DecidedLeader}
use dual_optimistic_l.Consensus.UniversalCommitter.Order.{try_decide-AreOrdered}
use dual_optimistic_l.Consensus.UniversalCommitter.Prefix.{IsElected, AreOrdered}
use dual_optimistic_l.Consensus.DagState.Causal.Fuel.{get_causal_blocks-ends}
use dual_optimistic_l.Consensus.DagState.Ancestors.Ascending.{IsDescending}
use dual_optimistic_l.Consensus.UniversalCommitter.Ends.{try_decide-ends}
use dual_optimistic_l.Consensus.BaseCommitter.Leaders.{wave_number_lem}
use dual_optimistic_l.Consensus.BaseCommitter.{BaseCommitterOptions}

solo_dag-IsKeyed : IsKeyed solo_dag
solo_dag-IsKeyed = record {
  blocks = (refl, (refl, (refl, (refl, (refl, tt)))));
  genesis = (refl, tt);
  sorted = ground arith;
}

abbrev genesis_slot : Slot
genesis_slot = record { round = 0; authority = 0 }

abbrev slot_three : Slot
slot_three = record { round = 3; authority = 0 }

decided :
    UniversalCommitter.try_decide solo
      (UniversalCommitter.build UniversalCommitter.new_builder)
      solo_dag
      genesis_slot
    ≡ done (DecidedLeader.commit b3 true ∷ [])
unfolding DagState.index_blocks DagState.keys_of DagState.new DagState.accept_block
    DagState.accept_blocks DagState.get_block DagState.get_blocks DagState.contains_block
    DagState.is_committed DagState.set_committed DagState.uncommitted_in
    DagState.get_uncommitted_blocks_at_slot DagState.get_uncommitted_blocks_at_round
    DagState.uncommitted_at_round DagState.record_commit DagState.derive_commit_digest
    Linearizer.uncommitted_ancestors Linearizer.expect_all Linearizer.push_all Linearizer.visit
    Linearizer.loop Linearizer.linearize_sub_dag Linearizer.commit_leader BlockManager.is_suspended
    BlockManager.is_missing BlockManager.missing_of BlockManager.register
    BlockManager.accept_or_suspend BlockManager.try_accept_one_block BlockManager.release
    BlockManager.release_all BlockManager.try_unsuspend_children_blocks Accept.finish_accept
    Accept.after_try Accept.accept_one Accept.insert_by_round Accept.sort_by_round
    Accept.accept_each Accept.try_accept_blocks_internal Accept.try_accept_blocks
    UniversalCommitter.decide_slot UniversalCommitter.visit_slot UniversalCommitter.visit_round
    UniversalCommitter.visit_rounds UniversalCommitter.decided_prefix UniversalCommitter.reverse
    UniversalCommitter.try_decide UniversalCommitter.leader_offsets UniversalCommitter.build
    BaseCommitter.leader_round BaseCommitter.decision_round BaseCommitter.wave_number
    BaseCommitter.elect_leader_index BaseCommitter.elect_leader Support.first_at Support.search_weak
    Support.find_from Support.find_supported_block Support.is_vote Support.vote_of
    Support.cached_vote Support.add_if Support.certify Support.is_certificate Support.blame_loop
    Support.enough_leader_blame Support.support_loop Support.enough_leader_support
    Decide.filter_blocks Decide.at_most_one Decide.try_direct_decide Decide.any_certificate
    Decide.from_anchors Decide.try_indirect_decide SoftCommit.new SoftCommit.agg_of
    SoftCommit.add_vote SoftCommit.is_leader_round SoftCommit.leader_at_round StakeAggregator.add
    StakeAggregator.clear ThresholdClock.new ThresholdClock.add_current ThresholdClock.catch_up
    ThresholdClock.add_block Committee.stake Committee.reached_quorum Commit.insert_block
    Commit.sort_sub_dag_blocks Commit.status_round Commit.is_decided Commit.into_decided_leader
    Causal.is_pushed Causal.push_ancestor Causal.push_ancestors Causal.causal_loop
    Causal.get_causal_blocks Types.genesis_blocks Types.genesis_from Types.genesis_block
    Types.new_verified Types.compute_digest Map.get Map.insert Map.remove Set.contains Set.insert
    Set.remove
decided = refl

zero-IsElected : IsElected solo genesis_slot
unfolding BaseCommitter.elect_leader BaseCommitter.wave_number BaseCommitter.leader_round
    BaseCommitter.elect_leader_index
zero-IsElected = refl

try_decide-AreOrdered_example : AreOrdered solo 1 3 (DecidedLeader.commit b3 true ∷ [])
try_decide-AreOrdered_example =
    try_decide-AreOrdered solo solo_dag genesis_slot {ds = DecidedLeader.commit b3 true ∷ []}
      solo_dag-IsKeyed zero-IsElected decided

solo_dag-IsCausal : IsCausal solo_dag
unfolding DagState.get_block Map.get
solo_dag-IsCausal = record {
  keyed = solo_dag-IsKeyed;
  blocks = (
    ((omega arith, (genesis_zero, refl)), tt),
    (
      ((omega arith, (b1, refl)), tt),
      (
        ((omega arith, (b2, refl)), tt),
        (((omega arith, (b3, refl)), tt), (((omega arith, (b4, refl)), tt), tt)),
      ),
    ),
  );
  genesis = (tt, tt);
}

b5-HasAncestors : HasAncestors solo_dag b5
b5-HasAncestors = solo_dag-IsCausal.blocks.1.1.1.1.0

find_supported_block_lem_example :
    (r : Option BlockRef) × (Support.find_supported_block solo_dag slot_three b5 ≡ done r)
    × IsRight (Supports solo_dag slot_three b5) r
find_supported_block_lem_example =
    find_supported_block_lem solo_dag slot_three b5 solo_dag-IsCausal b5-HasAncestors

has_votes : HasVotes solo solo_dag b3 (λ a. a.round == 4) b5
unfolding DagState.index_blocks DagState.keys_of DagState.new DagState.accept_block
    DagState.accept_blocks DagState.get_block DagState.get_blocks DagState.contains_block
    DagState.is_committed DagState.set_committed DagState.uncommitted_in
    DagState.get_uncommitted_blocks_at_slot DagState.get_uncommitted_blocks_at_round
    DagState.uncommitted_at_round DagState.record_commit DagState.derive_commit_digest
    Linearizer.uncommitted_ancestors Linearizer.expect_all Linearizer.push_all Linearizer.visit
    Linearizer.loop Linearizer.linearize_sub_dag Linearizer.commit_leader BlockManager.is_suspended
    BlockManager.is_missing BlockManager.missing_of BlockManager.register
    BlockManager.accept_or_suspend BlockManager.try_accept_one_block BlockManager.release
    BlockManager.release_all BlockManager.try_unsuspend_children_blocks Accept.finish_accept
    Accept.after_try Accept.accept_one Accept.insert_by_round Accept.sort_by_round
    Accept.accept_each Accept.try_accept_blocks_internal Accept.try_accept_blocks
    UniversalCommitter.decide_slot UniversalCommitter.visit_slot UniversalCommitter.visit_round
    UniversalCommitter.visit_rounds UniversalCommitter.decided_prefix UniversalCommitter.reverse
    UniversalCommitter.try_decide UniversalCommitter.leader_offsets UniversalCommitter.build
    BaseCommitter.leader_round BaseCommitter.decision_round BaseCommitter.wave_number
    BaseCommitter.elect_leader_index BaseCommitter.elect_leader Support.first_at Support.search_weak
    Support.find_from Support.find_supported_block Support.is_vote Support.vote_of
    Support.cached_vote Support.add_if Support.certify Support.is_certificate Support.blame_loop
    Support.enough_leader_blame Support.support_loop Support.enough_leader_support
    Decide.filter_blocks Decide.at_most_one Decide.try_direct_decide Decide.any_certificate
    Decide.from_anchors Decide.try_indirect_decide SoftCommit.new SoftCommit.agg_of
    SoftCommit.add_vote SoftCommit.is_leader_round SoftCommit.leader_at_round StakeAggregator.add
    StakeAggregator.clear ThresholdClock.new ThresholdClock.add_current ThresholdClock.catch_up
    ThresholdClock.add_block Committee.stake Committee.reached_quorum Commit.insert_block
    Commit.sort_sub_dag_blocks Commit.status_round Commit.is_decided Commit.into_decided_leader
    Causal.is_pushed Causal.push_ancestor Causal.push_ancestors Causal.causal_loop
    Causal.get_causal_blocks Types.genesis_blocks Types.genesis_from Types.genesis_block
    Types.new_verified Types.compute_digest Map.get Map.insert Map.remove Set.contains Set.insert
    Set.remove
has_votes = ((refl, tt), (omega arith, tt))

only_five : DagState.uncommitted_at_round solo_dag 5 ≡ b5 ∷ []
unfolding DagState.index_blocks DagState.keys_of DagState.new DagState.accept_block
    DagState.accept_blocks DagState.get_block DagState.get_blocks DagState.contains_block
    DagState.is_committed DagState.set_committed DagState.uncommitted_in
    DagState.get_uncommitted_blocks_at_slot DagState.get_uncommitted_blocks_at_round
    DagState.uncommitted_at_round DagState.record_commit DagState.derive_commit_digest
    Linearizer.uncommitted_ancestors Linearizer.expect_all Linearizer.push_all Linearizer.visit
    Linearizer.loop Linearizer.linearize_sub_dag Linearizer.commit_leader BlockManager.is_suspended
    BlockManager.is_missing BlockManager.missing_of BlockManager.register
    BlockManager.accept_or_suspend BlockManager.try_accept_one_block BlockManager.release
    BlockManager.release_all BlockManager.try_unsuspend_children_blocks Accept.finish_accept
    Accept.after_try Accept.accept_one Accept.insert_by_round Accept.sort_by_round
    Accept.accept_each Accept.try_accept_blocks_internal Accept.try_accept_blocks
    UniversalCommitter.decide_slot UniversalCommitter.visit_slot UniversalCommitter.visit_round
    UniversalCommitter.visit_rounds UniversalCommitter.decided_prefix UniversalCommitter.reverse
    UniversalCommitter.try_decide UniversalCommitter.leader_offsets UniversalCommitter.build
    BaseCommitter.leader_round BaseCommitter.decision_round BaseCommitter.wave_number
    BaseCommitter.elect_leader_index BaseCommitter.elect_leader Support.first_at Support.search_weak
    Support.find_from Support.find_supported_block Support.is_vote Support.vote_of
    Support.cached_vote Support.add_if Support.certify Support.is_certificate Support.blame_loop
    Support.enough_leader_blame Support.support_loop Support.enough_leader_support
    Decide.filter_blocks Decide.at_most_one Decide.try_direct_decide Decide.any_certificate
    Decide.from_anchors Decide.try_indirect_decide SoftCommit.new SoftCommit.agg_of
    SoftCommit.add_vote SoftCommit.is_leader_round SoftCommit.leader_at_round StakeAggregator.add
    StakeAggregator.clear ThresholdClock.new ThresholdClock.add_current ThresholdClock.catch_up
    ThresholdClock.add_block Committee.stake Committee.reached_quorum Commit.insert_block
    Commit.sort_sub_dag_blocks Commit.status_round Commit.is_decided Commit.into_decided_leader
    Causal.is_pushed Causal.push_ancestor Causal.push_ancestors Causal.causal_loop
    Causal.get_causal_blocks Types.genesis_blocks Types.genesis_from Types.genesis_block
    Types.new_verified Types.compute_digest Map.get Map.insert Map.remove Set.contains Set.insert
    Set.remove
only_five = refl

five_known : All (λ b. b.author < 1) (DagState.uncommitted_at_round solo_dag 5)
five_known = subst (All (λ b. b.author < 1)) (sym only_five) (omega arith, tt)

five_votes :
    All (HasVotes solo solo_dag b3 (λ a. a.round == 4)) (DagState.uncommitted_at_round solo_dag 5)
five_votes =
    subst (All (HasVotes solo solo_dag b3 (λ a. a.round == 4))) (sym only_five) (has_votes, tt)

enough_leader_support_lem_example :
    Support.enough_leader_support solo solo_dag 5 b3
    ≡ done (
        have_quorum solo (
          voters_of
            (certifies solo (λ a. a.round == 4))
            (λ b. b.author)
            (DagState.uncommitted_at_round solo_dag 5)))
enough_leader_support_lem_example =
    enough_leader_support_lem solo solo_dag 5 b3 (λ a. a.round == 4) (omega arith) (omega arith)
      (omega arith) five_known five_votes

enough_leader_blame_lem_example :
    (blame : ℕ → Bool) × ((j : ℕ)
      → (blame j ≡ true) ↔ ((b : VerifiedBlock) × BlamesLeader solo_dag 5 1 b × (b.author ≡ j)))
    × (Support.enough_leader_blame solo solo_dag 5 1
        ≡ some (reached_quorum solo (weight solo blame)))
enough_leader_blame_lem_example =
    enough_leader_blame_lem solo solo_dag 5 1 solo_dag-IsKeyed (omega arith) (omega arith)
      (omega arith) five_known

get_causal_blocks-ends_example :
    has_ended (Causal.get_causal_blocks solo_dag (reference b3) 0) ≡ true
get_causal_blocks-ends_example = get_causal_blocks-ends solo_dag (reference b3) 0

solo_dag-IsDescending : IsDescending solo_dag
solo_dag-IsDescending = record {
  keyed = solo_dag-IsKeyed;
  blocks = (
    (omega arith, tt),
    ((omega arith, tt), ((omega arith, tt), ((omega arith, tt), ((omega arith, tt), tt)))),
  );
  genesis = (tt, tt);
}

try_decide-ends_example :
    has_ended (
      UniversalCommitter.try_decide solo
        (UniversalCommitter.build UniversalCommitter.new_builder)
        solo_dag
        genesis_slot)
    ≡ true
try_decide-ends_example =
    try_decide-ends solo (UniversalCommitter.build UniversalCommitter.new_builder) solo_dag
      genesis_slot solo_dag-IsDescending

-- The second of three pipelined committers.
abbrev pipelined : BaseCommitterOptions
pipelined = record { wave_length = 3; leader_offset = 0; round_offset = 1 }

wave_number_lem_example :
    (wave : ℕ) × (BaseCommitter.wave_number pipelined 5 ≡ some wave)
    × (BaseCommitter.checked_leader_round pipelined wave
        ≡ some (BaseCommitter.leader_round pipelined wave))
    × (BaseCommitter.checked_decision_round pipelined wave
        ≡ some (BaseCommitter.decision_round pipelined wave))
    × (BaseCommitter.leader_round pipelined wave ≤ 5)
    × (5 ≤ BaseCommitter.leader_round pipelined wave + 2)
    × (BaseCommitter.decision_round pipelined wave ≡ BaseCommitter.leader_round pipelined wave + 2)
wave_number_lem_example = wave_number_lem pipelined 5 refl (omega arith) (omega arith)
