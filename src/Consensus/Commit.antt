-- ===== src/Consensus/Commit.antt =====
-- crates/consensus/src/commit.rs: commit references, sub-dags, and the status of leader slots.
pub mod Sort
use dual_optimistic_l.Base.{
  ℕ, Bool, true, false, ◌&&◌, ◌||◌, not, Option, none, some, List, [], ◌∷◌, ltb, ◌==◌,
  if◌then◌else◌,
}
use dual_optimistic_l.Consensus.Types.{BlockRef, Slot, VerifiedBlock, reference, slot, slot_of}

abbrev pub genesis_commit_index : ℕ
genesis_commit_index = 0

pub record CommitRef : Type 0 where
  pub index : ℕ
  pub digest : ℕ

pub record CommittedSubDag : Type 0 where
  pub leader : BlockRef
  pub blocks : List VerifiedBlock
  pub timestamp_ms : ℕ
  pub commit_ref : CommitRef

-- The comparison of `sort_sub_dag_blocks`: by round, then by author.
abbrev pub sorts_before : VerifiedBlock → VerifiedBlock → Bool
sorts_before a b = ltb a.round b.round || (a.round == b.round && ltb a.author b.author)

-- Before the first block that sorts behind it; equal blocks keep their order.
unfoldable pub insert_block : VerifiedBlock → List VerifiedBlock → List VerifiedBlock
insert_block a [] = a ∷ []
insert_block a (b ∷ rest) = if sorts_before b a then b ∷ insert_block a rest else a ∷ b ∷ rest

-- The stable sort.
unfoldable pub sort_sub_dag_blocks : List VerifiedBlock → List VerifiedBlock
sort_sub_dag_blocks [] = []
sort_sub_dag_blocks (b ∷ rest) = insert_block b (sort_sub_dag_blocks rest)

pub data LeaderStatus : Type 0 where
  commit : VerifiedBlock → LeaderStatus
  skip : Slot → LeaderStatus
  undecided : Slot → LeaderStatus

pub data DecidedLeader : Type 0 where
  commit : VerifiedBlock → Bool → DecidedLeader
  skip : Slot → DecidedLeader

pub data Decision : Type 0 where
  direct indirect : Decision

unfoldable pub status_round : LeaderStatus → ℕ
status_round (LeaderStatus.commit b) = b.round
status_round (LeaderStatus.skip s) = s.round
status_round (LeaderStatus.undecided s) = s.round

unfoldable pub is_decided : LeaderStatus → Bool
is_decided (LeaderStatus.commit b) = true
is_decided (LeaderStatus.skip s) = true
is_decided (LeaderStatus.undecided s) = false

unfoldable pub into_decided_leader : LeaderStatus → Bool → Option DecidedLeader
into_decided_leader (LeaderStatus.commit b) direct_rule = some (DecidedLeader.commit b direct_rule)
into_decided_leader (LeaderStatus.skip s) direct_rule = some (DecidedLeader.skip s)
into_decided_leader (LeaderStatus.undecided s) direct_rule = none

unfoldable pub decided_slot : DecidedLeader → Slot
decided_slot (DecidedLeader.commit b d) = slot_of (reference b)
decided_slot (DecidedLeader.skip s) = s

unfoldable pub into_committed_block : DecidedLeader → Option VerifiedBlock
into_committed_block (DecidedLeader.commit b d) = some b
into_committed_block (DecidedLeader.skip s) = none
