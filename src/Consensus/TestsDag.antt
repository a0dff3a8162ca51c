-- ===== src/Consensus/TestsDag.antt =====
-- Concrete runs on a DAG of two blocks, the second naming the first as its ancestor.
use dual_optimistic_l.Base.{ℕ, ◌+◌, ◌≡◌, refl, true, some, List, [], ◌∷◌, arith}
use dual_optimistic_l.Base.Map
use dual_optimistic_l.Base.Set
use dual_optimistic_l.Consensus.Committee.{Committee}
use dual_optimistic_l.Consensus.Types.{BlockRef, VerifiedBlock, reference, ref_key}
use dual_optimistic_l.Consensus.StakeAggregator
use dual_optimistic_l.Consensus.Commit.{insert_block, sort_sub_dag_blocks}
use dual_optimistic_l.Consensus.Commit.Sort.{bit}
use dual_optimistic_l.Consensus.DagState.{
  DagState, get_block, get_blocks, is_committed, set_committed,
}
use dual_optimistic_l.Consensus.DagState.Outcome.{done}
use dual_optimistic_l.Consensus.DagState.Store.{IsKeyed}
use dual_optimistic_l.Consensus.Linearizer.{
  uncommitted_ancestors, expect_all, push_all, visit, loop, linearize_sub_dag,
}
use dual_optimistic_l.Consensus.Commit.{CommittedSubDag}
use dual_optimistic_l.Consensus.DagState.{record_commit, derive_commit_digest}
use dual_optimistic_l.Consensus.DagState.Outcome.{has_ended}
use dual_optimistic_l.Consensus.Linearizer.{commit_leader}
use dual_optimistic_l.Base.{All}
use dual_optimistic_l.Consensus.Linearizer.Closure.{
  has_committed_ancestors, linearize_sub_dag-closed,
}
use dual_optimistic_l.Consensus.Linearizer.History.{
  commit_leaders, occurrences_in, Follows, commit_leaders_lem, commit_leaders-ends,
}
use dual_optimistic_l.Consensus.DagState.Causal.{get_causal_blocks}
use dual_optimistic_l.Consensus.Linearizer.ReadOnly.{linearize_sub_dag-get_causal_blocks}

abbrev first_block : VerifiedBlock
first_block = record {
  block = record {
    epoch = 0;
    round = 1;
    author = 0;
    timestamp_ms = 5;
    ancestors = [];
    transactions = [];
  };
  digest = 21;
}

abbrev second_block : VerifiedBlock
second_block = record {
  block = record {
    epoch = 0;
    round = 2;
    author = 1;
    timestamp_ms = 6;
    ancestors = reference first_block ∷ [];
    transactions = [];
  };
  digest = 22;
}

abbrev dag_of : List (BlockRef × VerifiedBlock) → List BlockRef → ℕ → DagState
dag_of blocks committed highest = record {
  genesis = [];
  blocks = blocks;
  committed = committed;
  threshold_clock = record { aggregator = StakeAggregator.empty; round = 9 };
  highest_accepted_round = highest;
  last_commit_index = 0;
  last_commit_digest = 0;
  last_commit_timestamp_ms = 0;
}

abbrev one_dag : DagState
one_dag = dag_of ((reference first_block, first_block) ∷ []) [] 1

abbrev two_dag : DagState
two_dag =
    dag_of ((reference first_block, first_block) ∷ (reference second_block, second_block) ∷ []) [] 2

abbrev two_committed : DagState
two_committed = record two_dag { committed = reference first_block ∷ reference second_block ∷ [] }

abbrev no_committee : Committee
no_committee = record {
  epoch = 0;
  total_stake = 0;
  quorum_threshold = 0;
  validity_threshold = 0;
  authorities = [];
}

one_dag-IsKeyed : IsKeyed one_dag
one_dag-IsKeyed = record { blocks = (refl, tt); genesis = tt; sorted = (tt, tt) }

two_dag-IsKeyed : IsKeyed two_dag
two_dag-IsKeyed = record { blocks = (refl, (refl, tt)); genesis = tt; sorted = ground arith }

second_linearized :
    linearize_sub_dag second_block two_dag ≡ done (two_committed, first_block ∷ second_block ∷ [])
unfolding linearize_sub_dag set_committed loop visit expect_all push_all uncommitted_ancestors
    get_blocks get_block Map.get Set.contains Set.insert sort_sub_dag_blocks insert_block
second_linearized = refl

abbrev checksum : List ℕ → ℕ
checksum bytes = 7

abbrev second_sub_dag : CommittedSubDag
second_sub_dag = record {
  leader = reference second_block;
  blocks = first_block ∷ second_block ∷ [];
  timestamp_ms = 6;
  commit_ref = record { index = 1; digest = 7 };
}

abbrev after_second : DagState
after_second = record two_committed {
  last_commit_index = 1;
  last_commit_digest = 7;
  last_commit_timestamp_ms = 6;
}

second_committed : commit_leader checksum two_dag second_block ≡ done (after_second, second_sub_dag)
unfolding commit_leader linearize_sub_dag set_committed loop visit expect_all push_all
    uncommitted_ancestors get_blocks get_block Map.get Set.contains Set.insert sort_sub_dag_blocks
    insert_block record_commit derive_commit_digest
second_committed = refl

second_history :
    commit_leaders checksum two_dag (second_block ∷ []) ≡ done (after_second, second_sub_dag ∷ [])
unfolding commit_leaders commit_leader linearize_sub_dag set_committed loop visit expect_all
    push_all uncommitted_ancestors get_blocks get_block Map.get Set.contains Set.insert
    sort_sub_dag_blocks insert_block record_commit derive_commit_digest
second_history = refl

commit_leaders_lem_example :
    (occurrences_in (reference first_block) (second_sub_dag ∷ [])
        + bit (is_committed two_dag (reference first_block))
      ≡ bit (is_committed after_second (reference first_block)))
    × Follows 0 0 (second_sub_dag ∷ [])
commit_leaders_lem_example =
    commit_leaders_lem checksum two_dag (second_block ∷ []) {t = after_second}
      {ds = second_sub_dag ∷ []} (reference first_block) second_history

commit_leaders-ends_example :
    has_ended (commit_leaders checksum two_dag (second_block ∷ second_block ∷ [])) ≡ true
commit_leaders-ends_example =
    commit_leaders-ends checksum two_dag (second_block ∷ second_block ∷ [])

linearize_sub_dag-closed_example :
    All
      (λ b. has_committed_ancestors two_committed.committed b ≡ true)
      (first_block ∷ second_block ∷ [])
linearize_sub_dag-closed_example =
    linearize_sub_dag-closed two_dag second_block {t = two_committed}
      {blocks = first_block ∷ second_block ∷ []} two_dag-IsKeyed second_linearized

second_found : get_block two_dag (reference second_block) ≡ some second_block
unfolding get_block Map.get
second_found = refl

linearize_sub_dag-get_causal_blocks_example :
    (out : List VerifiedBlock) × (get_causal_blocks two_dag (reference second_block) 0 ≡ done out)
    × (first_block ∷ second_block ∷ [] ≡ sort_sub_dag_blocks out)
linearize_sub_dag-get_causal_blocks_example =
    linearize_sub_dag-get_causal_blocks two_dag second_block {t = two_committed}
      {blocks = first_block ∷ second_block ∷ []} two_dag-IsKeyed second_found second_linearized
