-- ===== src/Consensus/Node.antt =====
-- crates/consensus/src/node.rs: the node that puts the parts together. The events that it broadcasts
-- are the list that a call returns; the receivers, and what a full channel does, are not covered.
pub mod Events
pub mod Commits
pub mod Order
pub mod Start
use dual_optimistic_l.Base.{
  ℕ, ◌-◌, ◌==◌, ◌&&◌, Bool, true, false, List, [], ◌∷◌, ◌++◌, map, ltb, if◌then◌else◌,
}
use dual_optimistic_l.Consensus.BaseCommitter.Support.{or_panic}
use dual_optimistic_l.Consensus.BlockManager.{BlockManager}
use dual_optimistic_l.Consensus.BlockManager.Accept.{try_accept_blocks}
use dual_optimistic_l.Consensus.BlockManager
use dual_optimistic_l.Consensus.Commit.{CommittedSubDag, DecidedLeader}
use dual_optimistic_l.Consensus.Committee
use dual_optimistic_l.Consensus.Committee.{Committee}
use dual_optimistic_l.Consensus.DagState
use dual_optimistic_l.Consensus.DagState.{DagState, gc_round}
use dual_optimistic_l.Consensus.DagState.Causal.{get_causal_blocks}
use dual_optimistic_l.Consensus.DagState.Outcome.{Outcome, done, ◌>>=◌}
use dual_optimistic_l.Consensus.Linearizer.{commit_leader}
use dual_optimistic_l.Consensus.SoftCommit
use dual_optimistic_l.Consensus.SoftCommit.{
  SoftCommitTracker, add_vote, is_leader_round, leader_at_round,
}
use dual_optimistic_l.Consensus.Types.{
  BlockRef, Slot, VerifiedBlock, reference, slot_of, genesis_round,
}
use dual_optimistic_l.Consensus.UniversalCommitter.{new_builder, build, try_decide}
use dual_optimistic_l.Shared
use dual_optimistic_l.Shared.{ConsensusEvent, OurCommittedSubDag, OurVerifiedBlock, EthSignedTx}

pub record ConsensusNode : Type 0 where
  pub dag_state : DagState
  pub block_manager : BlockManager
  pub soft_commit : SoftCommitTracker
  pub last_decided : Slot

unfoldable pub new : (List ℕ → ℕ) → Committee → ConsensusNode
new sha3 c = record {
  dag_state = DagState.new sha3 c;
  block_manager = BlockManager.new;
  soft_commit = SoftCommit.new;
  last_decided = record { round = genesis_round; authority = 0 };
}

abbrev pub to_shared_block_ref : BlockRef → Shared.BlockRef
to_shared_block_ref r = record { round = r.round; author = r.author; digest = r.digest }

unfoldable pub to_shared_block : VerifiedBlock → OurVerifiedBlock
to_shared_block b = record { block_ref = to_shared_block_ref (reference b); txs = b.transactions }

unfoldable pub to_shared_subdag : CommittedSubDag → OurCommittedSubDag
to_shared_subdag d = record {
  leader = to_shared_block_ref d.leader;
  blocks = map to_shared_block d.blocks;
  timestamp_ms = d.timestamp_ms;
  commit_index = d.commit_ref.index;
}

abbrev pub transactions_of : List VerifiedBlock → List EthSignedTx
transactions_of [] = []
transactions_of (b ∷ rest) = b.transactions ++ transactions_of rest

module _ (c : Committee) where
  -- The event of a vote that fired.
  unfoldable pub soft_event : DagState → ℕ → BlockRef → Bool → Outcome (List ConsensusEvent)
  soft_event s leader_round leader false = done []
  soft_event s leader_round leader true = get_causal_blocks s leader (gc_round s) >>= λ blocks.
      done (
        ConsensusEvent.soft_commit leader_round (to_shared_block_ref leader)
          (transactions_of blocks)
        ∷ [])

  -- One ancestor of a voting block.
  unfoldable pub check_ancestor :
      DagState
      → ℕ
      → ℕ
      → ℕ
      → SoftCommitTracker
      → BlockRef
      → Outcome (SoftCommitTracker × List ConsensusEvent)
  check_ancestor s leader_round expected voter t a =
      if a.round == leader_round && a.author == expected
      then (or_panic (add_vote t a voter c) >>= λ r.
          soft_event s leader_round a r.1 >>= λ events. done (r.0, events))
      else done (t, [])

  unfoldable pub check_ancestors :
      DagState
      → ℕ
      → ℕ
      → ℕ
      → SoftCommitTracker
      → List BlockRef
      → Outcome (SoftCommitTracker × List ConsensusEvent)
  check_ancestors s leader_round expected voter t [] = done (t, [])
  check_ancestors s leader_round expected voter t (a ∷ rest) =
      check_ancestor s leader_round expected voter t a >>= λ first.
      check_ancestors s leader_round expected voter first.0 rest >>= λ more.
      done (more.0, first.1 ++ more.1)

  unfoldable pub check_soft_commit :
      DagState
      → SoftCommitTracker
      → VerifiedBlock
      → Outcome (SoftCommitTracker × List ConsensusEvent)
  check_soft_commit s t b =
      if ltb b.round 2
      then done (t, [])
      else if is_leader_round (b.round - 1)
      then (or_panic (leader_at_round (b.round - 1) (Committee.size c)) >>= λ expected.
          check_ancestors s (b.round - 1) expected b.author t b.ancestors)
      else done (t, [])

  unfoldable pub check_soft_commits :
      DagState
      → SoftCommitTracker
      → List VerifiedBlock
      → Outcome (SoftCommitTracker × List ConsensusEvent)
  check_soft_commits s t [] = done (t, [])
  check_soft_commits s t (b ∷ rest) = check_soft_commit s t b >>= λ first.
      check_soft_commits s first.0 rest >>= λ more. done (more.0, first.1 ++ more.1)

-- What the loop over decided leaders changes.
pub record Decided : Type 0 where
  pub dag_state : DagState
  pub last_decided : Slot

module _ (sha3 : List ℕ → ℕ) where
  -- One decided leader: an event if it is committed, none if it is skipped.
  unfoldable pub apply_decided : Decided → DecidedLeader → Outcome (Decided × List ConsensusEvent)
  apply_decided w (DecidedLeader.commit leader_block direct) =
      commit_leader sha3 w.dag_state leader_block >>= λ r. done (
        record { dag_state = r.0; last_decided = slot_of (reference leader_block) },
        ConsensusEvent.hard_commit (to_shared_subdag r.1) ∷ [],
      )
  apply_decided w (DecidedLeader.skip slot) = done (record w { last_decided = slot }, [])

  unfoldable pub apply_all : Decided → List DecidedLeader → Outcome (Decided × List ConsensusEvent)
  apply_all w [] = done (w, [])
  apply_all w (d ∷ rest) = apply_decided w d >>= λ first.
      apply_all first.0 rest >>= λ more. done (more.0, first.1 ++ more.1)

  unfoldable pub try_hard_commit : Committee → Decided → Outcome (Decided × List ConsensusEvent)
  try_hard_commit c w =
      try_decide c (build new_builder) w.dag_state w.last_decided >>= λ decided. apply_all w decided

  unfoldable pub accept_blocks :
      Committee → ConsensusNode → List VerifiedBlock → Outcome (ConsensusNode × List ConsensusEvent)
  accept_blocks c n blocks =
      or_panic
        (try_accept_blocks c (record { dag_state = n.dag_state; manager = n.block_manager }) blocks)
      >>= λ r. check_soft_commits c r.0.dag_state n.soft_commit r.1.accepted_blocks >>= λ soft.
          try_hard_commit c (record { dag_state = r.0.dag_state; last_decided = n.last_decided })
          >>= λ hard. done (
            record {
              dag_state = hard.0.dag_state;
              block_manager = r.0.manager;
              soft_commit = soft.0;
              last_decided = hard.0.last_decided;
            },
            soft.1 ++ hard.1,
          )

  unfoldable pub accept_block :
      Committee → ConsensusNode → VerifiedBlock → Outcome (ConsensusNode × List ConsensusEvent)
  accept_block c n b = accept_blocks c n (b ∷ [])
