-- ===== src/Consensus/TestsSolo.antt =====
-- A committee of one, and its DAG of five blocks.
use dual_optimistic_l.Base.{ℕ, ◌-◌, List, [], ◌∷◌}
use dual_optimistic_l.Consensus.Committee.{Committee}
use dual_optimistic_l.Consensus.DagState.{DagState}
use dual_optimistic_l.Consensus.StakeAggregator
use dual_optimistic_l.Consensus.Types.{BlockRef, VerifiedBlock, reference}

abbrev pub solo : Committee
solo = record {
  epoch = 0;
  total_stake = 1;
  quorum_threshold = 1;
  validity_threshold = 1;
  authorities = record { stake = 1; hostname = [] } ∷ [];
}

abbrev pub checksum : List ℕ → ℕ
checksum bytes = 7

abbrev pub link : ℕ → ℕ → ℕ → VerifiedBlock
link round digest parent = record {
  block = record {
    epoch = 0;
    round = round;
    author = 0;
    timestamp_ms = round;
    ancestors = record { round = round - 1; author = 0; digest = parent } ∷ [];
    transactions = (round ∷ []) ∷ [];
  };
  digest = digest;
}

abbrev pub b1 : VerifiedBlock
b1 = link 1 11 7

abbrev pub b2 : VerifiedBlock
b2 = link 2 12 11

abbrev pub b3 : VerifiedBlock
b3 = link 3 13 12

abbrev pub b4 : VerifiedBlock
b4 = link 4 14 13

abbrev pub b5 : VerifiedBlock
b5 = link 5 15 14

abbrev pub genesis_zero : VerifiedBlock
genesis_zero = record {
  block = record {
    epoch = 0;
    round = 0;
    author = 0;
    timestamp_ms = 0;
    ancestors = [];
    transactions = [];
  };
  digest = 7;
}

abbrev pub entry : VerifiedBlock → BlockRef × VerifiedBlock
entry b = (reference b, b)

-- The DAG with all five blocks, nothing but genesis being committed.
abbrev pub solo_dag : DagState
solo_dag = record {
  genesis = entry genesis_zero ∷ [];
  blocks = entry b1 ∷ entry b2 ∷ entry b3 ∷ entry b4 ∷ entry b5 ∷ [];
  committed = reference genesis_zero ∷ [];
  threshold_clock = record { aggregator = StakeAggregator.empty; round = 6 };
  highest_accepted_round = 5;
  last_commit_index = 0;
  last_commit_digest = 0;
  last_commit_timestamp_ms = 0;
}
