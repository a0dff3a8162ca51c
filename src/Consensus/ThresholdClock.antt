-- ===== src/Consensus/ThresholdClock.antt =====
-- crates/consensus/src/threshold_clock.rs: the proposal round of the local node. The committee of
-- the shared context is an argument.
pub mod Rounds
use dual_optimistic_l.Base.{
  ℕ, Bool, true, false, Option, none, some, List, [], ◌∷◌, ltb, ◌==◌, if◌then◌else◌, add32,
}
use dual_optimistic_l.Consensus.Committee.{Committee}
use dual_optimistic_l.Consensus.StakeAggregator
use dual_optimistic_l.Consensus.StakeAggregator.{StakeAggregator, quorum_threshold}
use dual_optimistic_l.Consensus.Types.{BlockRef}

pub record ThresholdClock : Type 0 where
  pub aggregator : StakeAggregator
  pub round : ℕ

unfoldable pub new : ℕ → ThresholdClock
new round = record { aggregator = StakeAggregator.empty; round = round }

-- The arm `Ordering::Equal`.
unfoldable pub add_current : Committee → ThresholdClock → BlockRef → Option (ThresholdClock × Bool)
add_current c clock b = elim (StakeAggregator.add quorum_threshold clock.aggregator b.author c) [
  | none ↦ none
  | some r ↦ some (
      if r.1
      then (record { aggregator = StakeAggregator.clear r.0; round = add32 b.round 1 }, true)
      else (record { aggregator = r.0; round = clock.round }, false))
]

-- The arm `Ordering::Greater`.
unfoldable pub catch_up : Committee → ThresholdClock → BlockRef → Option (ThresholdClock × Bool)
catch_up c clock b =
    let cleared = StakeAggregator.clear clock.aggregator in
    elim (StakeAggregator.add quorum_threshold cleared b.author c) [
      | none ↦ none
      | some r ↦
          some (record { aggregator = r.0; round = if r.1 then add32 b.round 1 else b.round }, true)
    ]

-- `none` is the panic of a block by an unknown authority.
unfoldable pub add_block : Committee → ThresholdClock → BlockRef → Option (ThresholdClock × Bool)
add_block c clock b =
    if ltb b.round clock.round
    then some (clock, false)
    else if b.round == clock.round
    then add_current c clock b
    else catch_up c clock b
