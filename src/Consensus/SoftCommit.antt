-- ===== src/Consensus/SoftCommit.antt =====
-- crates/consensus/src/soft_commit.rs: the 2Δ tracker of votes for wave leaders. The committee is
-- an argument.
pub mod Tally
pub mod Tracking
use dual_optimistic_l.Base.{
  ℕ, ◌%◌, ◌^◌, Bool, true, false, ◌&&◌, Option, none, some, List, [], ltb, ◌==◌, if◌then◌else◌,
}
use dual_optimistic_l.Base.Map
use dual_optimistic_l.Base.Map.{Map}
use dual_optimistic_l.Base.Set
use dual_optimistic_l.Consensus.Committee.{Committee}
use dual_optimistic_l.Consensus.StakeAggregator
use dual_optimistic_l.Consensus.StakeAggregator.{StakeAggregator, quorum_threshold}
use dual_optimistic_l.Consensus.Types.{BlockRef, ref_key}

abbrev pub default_wave_length : ℕ
default_wave_length = 3

pub record SoftCommitTracker : Type 0 where
  pub votes : Map BlockRef StakeAggregator
  pub soft_committed : List BlockRef

unfoldable pub new : SoftCommitTracker
new = record { votes = []; soft_committed = [] }

abbrev pub or_empty : Option StakeAggregator → StakeAggregator
or_empty none = StakeAggregator.empty
or_empty (some agg) = agg

-- `entry(leader_ref).or_insert_with(StakeAggregator::new)`
unfoldable pub agg_of : BlockRef → SoftCommitTracker → StakeAggregator
agg_of r t = or_empty (Map.get r t.votes)

unfoldable pub add_vote :
    SoftCommitTracker → BlockRef → ℕ → Committee → Option (SoftCommitTracker × Bool)
add_vote t leader_ref voter c =
    if Set.contains leader_ref t.soft_committed
    then some (t, false)
    else elim (StakeAggregator.add quorum_threshold (agg_of leader_ref t) voter c) [
      | none ↦ none
      | some r ↦
          let votes = Map.insert leader_ref r.0 t.votes in
          some (
            if r.1
            then (
              record { votes = votes; soft_committed = Set.insert leader_ref t.soft_committed },
              true,
            )
            else (record { votes = votes; soft_committed = t.soft_committed }, false))
    ]

unfoldable pub is_soft_committed : SoftCommitTracker → BlockRef → Bool
is_soft_committed t leader_ref = Set.contains leader_ref t.soft_committed

unfoldable pub is_leader_round : ℕ → Bool
is_leader_round round = ltb 0 round && round % default_wave_length == 0

-- `none` is the panic of a division by zero.
unfoldable pub leader_at_round : ℕ → ℕ → Option ℕ
leader_at_round round committee_size =
    if committee_size % 2 ^ 32 == 0 then none else some (round % (committee_size % 2 ^ 32))
