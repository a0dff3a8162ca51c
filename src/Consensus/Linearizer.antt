-- ===== src/Consensus/Linearizer.antt =====
-- crates/consensus/src/linearizer.rs: committed leaders into ordered sub-dags. The traversal changes
-- nothing of the DAG but its committed set, which is an argument of its loop; the head of the buffer
-- is the end of the source's vector. The fuel is two more than the DAG has blocks.
pub mod Counts
pub mod Fuel
pub mod Closure
pub mod ReadOnly
pub mod History
use dual_optimistic_l.Base.{
  ℕ, zero, suc, ◌+◌, Bool, true, false, not, ◌&&◌, Option, none, some, List, [], ◌∷◌, length, keep,
  all, ltb, if◌then◌else◌, add32,
}
use dual_optimistic_l.Base.Set
use dual_optimistic_l.Consensus.Commit.{CommittedSubDag, sort_sub_dag_blocks}
use dual_optimistic_l.Consensus.DagState.{
  DagState, get_block, get_blocks, gc_round, is_committed, set_committed, record_commit,
  derive_commit_digest,
}
use dual_optimistic_l.Consensus.DagState.Outcome.{Outcome, done, panic, out_of_fuel, ◌>>=◌}
use dual_optimistic_l.Consensus.Types.{BlockRef, VerifiedBlock, reference, ref_key}

-- The ancestors that the loop looks up.
unfoldable pub uncommitted_ancestors : DagState → List BlockRef → VerifiedBlock → List BlockRef
uncommitted_ancestors s committed b =
    keep (λ a. ltb (gc_round s) a.round && not (Set.contains a committed)) b.ancestors

-- `expect` on each lookup.
unfoldable pub expect_all : List (Option VerifiedBlock) → Outcome (List VerifiedBlock)
expect_all [] = done []
expect_all (none ∷ rest) = panic
expect_all (some b ∷ rest) = do bs ← expect_all rest; done (b ∷ bs)

-- Mark each ancestor as committed, which must be new, and push it.
unfoldable pub push_all :
    List BlockRef
    → List VerifiedBlock
    → List VerifiedBlock
    → Outcome (List BlockRef × List VerifiedBlock)
push_all committed [] buffer = done (committed, buffer)
push_all committed (a ∷ rest) buffer =
    if Set.contains (reference a) committed
    then panic
    else push_all (Set.insert (reference a) committed) rest (a ∷ buffer)

-- One round of the loop: look up the ancestors of the popped block and push them.
unfoldable pub visit :
    DagState
    → List BlockRef
    → VerifiedBlock
    → List VerifiedBlock
    → Outcome (List BlockRef × List VerifiedBlock)
visit s committed b buffer = do
  ancestors ← expect_all (get_blocks s (uncommitted_ancestors s committed b))
  push_all committed ancestors buffer

abbrev pub with_head :
    VerifiedBlock
    → List BlockRef × List VerifiedBlock
    → Outcome (List BlockRef × List VerifiedBlock)
with_head b (committed, out) = done (committed, b ∷ out)

unfoldable pub loop :
    ℕ → DagState → List BlockRef → List VerifiedBlock → Outcome (List BlockRef × List VerifiedBlock)
loop fuel s committed [] = done (committed, [])
loop zero s committed (b ∷ buffer) = out_of_fuel
loop (suc fuel) s committed (b ∷ buffer) =
    visit s committed b buffer >>= λ st. loop fuel s st.0 st.1 >>= with_head b

abbrev pub fuel_for : DagState → ℕ
fuel_for s = suc (suc (length s.blocks + length s.genesis))

-- The assertion after the loop, and the sort.
abbrev pub finish :
    DagState → List BlockRef × List VerifiedBlock → Outcome (DagState × List VerifiedBlock)
finish s (committed, out) =
    if all (λ b. ltb (gc_round s) b.round) out
    then done (record s { committed = committed }, sort_sub_dag_blocks out)
    else panic

unfoldable pub linearize_sub_dag :
    VerifiedBlock → DagState → Outcome (DagState × List VerifiedBlock)
linearize_sub_dag leader s =
    let (t, fresh) = set_committed s (reference leader) in
    if fresh then (loop (fuel_for s) s t.committed (leader ∷ []) >>= finish s) else panic

module _ (sha3 : List ℕ → ℕ) where
  unfoldable pub commit_leader : DagState → VerifiedBlock → Outcome (DagState × CommittedSubDag)
  commit_leader s leader =
      let next_index = add32 s.last_commit_index 1 in
      linearize_sub_dag leader s >>= λ r.
      let subdag : CommittedSubDag = record {
        leader = reference leader;
        blocks = r.1;
        timestamp_ms =
            if ltb leader.timestamp_ms s.last_commit_timestamp_ms
            then s.last_commit_timestamp_ms
            else leader.timestamp_ms;
        commit_ref = record {
          index = next_index;
          digest = derive_commit_digest sha3 next_index (reference leader);
        };
      } in
      done (record_commit r.0 subdag, subdag)
