-- ===== src/Consensus/StakeAggregator.antt =====
-- crates/consensus/src/stake_aggregator.rs: votes of distinct authorities, with their stake.
pub mod Votes
pub mod Collect
use dual_optimistic_l.Base.{
  ℕ, Bool, true, false, Option, none, some, List, [], ◌∷◌, if◌then◌else◌, add64,
}
use dual_optimistic_l.Base.Key.{nat_key}
use dual_optimistic_l.Base.Set
use dual_optimistic_l.Consensus.Committee
use dual_optimistic_l.Consensus.Committee.{Committee}

-- The trait `CommitteeThreshold`.
pub record CommitteeThreshold : Type 0 where
  pub is_threshold : Committee → ℕ → Bool
  pub threshold : Committee → ℕ

abbrev pub quorum_threshold : CommitteeThreshold
quorum_threshold = record {
  is_threshold = Committee.reached_quorum;
  threshold = λ c. c.quorum_threshold;
}

pub record StakeAggregator : Type 0 where
  pub votes : List ℕ
  pub stake : ℕ

abbrev pub empty : StakeAggregator
empty = record { votes = []; stake = 0 }

-- `none` is the panic of a vote by an index out of range.
unfoldable pub add :
    CommitteeThreshold → StakeAggregator → ℕ → Committee → Option (StakeAggregator × Bool)
add T agg vote c =
    if Set.contains vote agg.votes then some (agg, false) else elim (Committee.stake c vote) [
      | none ↦ none
      | some s ↦
          let sum = add64 agg.stake s in
          some (record { votes = Set.insert vote agg.votes; stake = sum }, T.is_threshold c sum)
    ]

unfoldable pub clear : StakeAggregator → StakeAggregator
clear agg = record { votes = []; stake = 0 }

-- The committers' loops over voters: `add` each in turn, and stop at the first that fires.
unfoldable pub collect :
    CommitteeThreshold → Committee → StakeAggregator → List ℕ → Option (StakeAggregator × Bool)
collect T c agg [] = some (agg, false)
collect T c agg (v ∷ vs) = elim (add T agg v c) [
  | none ↦ none
  | some r ↦ elim r.1 [ true ↦ some (r.0, true) | false ↦ collect T c r.0 vs ]
]
