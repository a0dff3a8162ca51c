-- ===== src/Consensus/Tests.antt =====
-- Concrete runs of crates/consensus: a committee of four authorities with one stake each, where
-- three are a quorum, and small DAGs of theirs.
use dual_optimistic_l.Base.{
  ℕ, ◌+◌, ◌*◌, ◌<◌, ◌≤◌, ◌≡◌, refl, true, false, ◌&&◌, some, List, [], ◌∷◌, ltb, ◌==◌,
  if◌then◌else◌, arith,
}
use dual_optimistic_l.Base.Key.{nat_key}
use dual_optimistic_l.Base.Set
use dual_optimistic_l.Consensus.Committee.{
  Authority, Committee, stake_sum, with_total, reached_quorum, reached_validity, stake,
}
use dual_optimistic_l.Consensus.Committee
use dual_optimistic_l.Consensus.Committee.Quorum.{
  fault_tolerance, weight, new_lem, quorum_intersection,
}
use dual_optimistic_l.Consensus.Types.{BlockRef, ref_key}
use dual_optimistic_l.Consensus.StakeAggregator
use dual_optimistic_l.Consensus.StakeAggregator.{
  StakeAggregator, quorum_threshold, empty, add, collect,
}
use dual_optimistic_l.Consensus.StakeAggregator.Votes.{Counts}
use dual_optimistic_l.Consensus.StakeAggregator.Collect.{voters, collect_lem, add_fires_again}
use dual_optimistic_l.Consensus.ThresholdClock
use dual_optimistic_l.Consensus.ThresholdClock.{ThresholdClock, add_block}
use dual_optimistic_l.Consensus.ThresholdClock.Rounds.{
  add_all, add_all-round, catch_up_counts_twice,
}
use dual_optimistic_l.Consensus.SoftCommit.{SoftCommitTracker, add_vote, is_soft_committed}
use dual_optimistic_l.Base.{none, ◌%◌}
use dual_optimistic_l.Consensus.SoftCommit.{leader_at_round}
use dual_optimistic_l.Consensus.BaseCommitter.{default, slot_at, elect_leader}
use dual_optimistic_l.Consensus.BaseCommitter.Leaders.{elect_leader_lem}
use dual_optimistic_l.Consensus.SoftCommit
use dual_optimistic_l.Consensus.SoftCommit.Tracking.{add_votes, add_votes_lem}
use dual_optimistic_l.Consensus.SoftCommit.Tally.{Vote, voters_for}

abbrev one_stake : Authority
one_stake = record { stake = 1; hostname = [] }

abbrev four : List Authority
four = one_stake ∷ one_stake ∷ one_stake ∷ one_stake ∷ []

abbrev committee_of_four : Committee
committee_of_four = record {
  epoch = 0;
  total_stake = 4;
  quorum_threshold = 3;
  validity_threshold = 2;
  authorities = four;
}

new_lem_example :
    (c : Committee) × (Committee.new 0 four ≡ some c)
    × (c.authorities ≡ four)
    × (c.epoch ≡ 0)
    × (c.total_stake ≡ 4)
    × (c.quorum_threshold + fault_tolerance four ≡ 4)
    × (c.validity_threshold ≡ fault_tolerance four + 1)
    × (3 * fault_tolerance four < 4)
    × (4 ≤ 3 * fault_tolerance four + 3)
new_lem_example = new_lem 0 four (ground arith) (omega arith) (omega arith) (omega arith)

new-four : Committee.new 0 four ≡ some committee_of_four
unfolding Committee.new with_total stake_sum
new-four = refl

three_reach : reached_quorum committee_of_four 3 ≡ true
unfolding reached_quorum
three_reach = refl

quorum_intersection_example :
    reached_validity committee_of_four (weight committee_of_four (λ j. ltb j 3 && ltb 0 j)) ≡ true
quorum_intersection_example =
    quorum_intersection 0 four (λ j. ltb j 3) (λ j. ltb 0 j) (omega arith) new-four three_reach
      three_reach

abbrev two_votes : StakeAggregator
two_votes = record { votes = 0 ∷ 1 ∷ []; stake = 2 }

abbrev three_votes : StakeAggregator
three_votes = record { votes = 0 ∷ 1 ∷ 2 ∷ []; stake = 3 }

two_votes-Counts : Counts committee_of_four two_votes
unfolding Set.contains
two_votes-Counts = refl

three_votes-Counts : Counts committee_of_four three_votes
unfolding Set.contains
three_votes-Counts = refl

three_new : Set.contains {K = ℕ} 3 (0 ∷ 1 ∷ 2 ∷ []) ≡ false
unfolding Set.contains
three_new = refl

collect_lem_example :
    (agg' : StakeAggregator) × (collect quorum_threshold committee_of_four two_votes
        (1 ∷ 3 ∷ 0 ∷ [])
      ≡ some (
        agg',
        reached_quorum committee_of_four
            (weight committee_of_four (voters two_votes (1 ∷ 3 ∷ 0 ∷ []))),
      ))
collect_lem_example =
    collect_lem committee_of_four two_votes (1 ∷ 3 ∷ 0 ∷ []) (omega arith) two_votes-Counts
      (omega arith) (ground arith)

add_fires_again_example :
    (agg' : StakeAggregator) × (add quorum_threshold three_votes 3 committee_of_four
      ≡ some (agg', true))
add_fires_again_example =
    add_fires_again committee_of_four three_votes 3 (omega arith) three_votes-Counts (omega arith)
      (omega arith) three_new

abbrev clock_at_five : ThresholdClock
clock_at_five = record { aggregator = two_votes; round = 5 }

abbrev block_of : ℕ → ℕ → BlockRef
block_of r a = record { round = r; author = a; digest = 9 }

abbrev clock_at_six : ThresholdClock
clock_at_six = record { aggregator = empty; round = 6 }

quorum_at_five :
    add_block committee_of_four clock_at_five (block_of 5 3) ≡ some (clock_at_six, true)
unfolding add_block StakeAggregator.add Set.contains stake reached_quorum ThresholdClock.add_current
    StakeAggregator.clear
quorum_at_five = refl

add_all-round_example :
    (clock' : ThresholdClock) × (add_all committee_of_four clock_at_five
        (block_of 5 1 ∷ block_of 5 3 ∷ [])
      ≡ some clock')
    × (clock'.round ≡ (
        if reached_quorum committee_of_four
          (weight committee_of_four (voters two_votes (1 ∷ 3 ∷ [])))
        then 6
        else 5))
add_all-round_example =
    add_all-round committee_of_four clock_at_five (block_of 5 1 ∷ block_of 5 3 ∷ []) (omega arith)
      two_votes-Counts (omega arith) (omega arith) (refl, (refl, tt)) (ground arith)

abbrev heavy : Committee
heavy = record {
  epoch = 0;
  total_stake = 4;
  quorum_threshold = 3;
  validity_threshold = 2;
  authorities = record { stake = 3; hostname = [] } ∷ one_stake ∷ [];
}

heavy_reaches : reached_quorum heavy 3 ≡ true
unfolding reached_quorum
heavy_reaches = refl

catch_up_counts_twice_example :
    (clock' : ThresholdClock) × (add_block heavy
        (record { aggregator = empty; round = 1 })
        (block_of 4 0)
      ≡ some (clock', true))
    × (clock'.round ≡ 5)
    × (add_block heavy clock' (block_of 5 0) ≡ some (clock', false))
catch_up_counts_twice_example =
    catch_up_counts_twice heavy (record { aggregator = empty; round = 1 }) 4 0 9 9 (omega arith)
      (omega arith) heavy_reaches (omega arith) (omega arith)

abbrev votes : List Vote
votes =
    (block_of 3 3, 0)
    ∷ (block_of 6 2, 1)
    ∷ (block_of 3 3, 1)
    ∷ (block_of 3 3, 1)
    ∷ (block_of 3 3, 3)
    ∷ []

add_votes_lem_example :
    (t : SoftCommitTracker) × (add_votes committee_of_four SoftCommit.new votes ≡ some t)
    × ((r : BlockRef)
        → is_soft_committed t r
          ≡ reached_quorum committee_of_four
              (weight committee_of_four (λ j. Set.contains {K = ℕ} j (voters_for r votes))))
add_votes_lem_example =
    add_votes_lem committee_of_four votes (omega arith) (omega arith) (ground arith)

elect_leader_lem_example : elect_leader committee_of_four default 6 ≡ (
    if 6 % 3 == 0
    then slot_at 6 (leader_at_round 6 (Committee.size committee_of_four))
    else some none)
elect_leader_lem_example = elect_leader_lem committee_of_four 6 (omega arith)
