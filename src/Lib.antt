-- ===== src/Lib.antt =====
-- Verification of the dual-optimistic layer 2: DAG consensus with an early soft commit (2Δ) and a
-- later hard commit (3Δ), and the scheduler that hands transactions to the executor on the first
-- and settles them on the second.
--
-- The parts, and the code that they model:
-- Shared: crates/shared/src/lib.rs, the types that cross crate boundaries.
-- Scheduler (crates/scheduler/src):
--   PendingQueue: pending_queue.rs. `insert`, `drain_dispatchable`, `on_hard_commit`. Its proofs:
--     Dispatch (one call), Trace (histories of calls).
--   Backpressure: backpressure.rs. `check` and `update`.
--   Pipeline: pipeline.rs. `run` takes the events and signals that `select!` yields as a list and
--     calls the handlers of the source; its proofs are in Safety and Order.
-- Consensus (crates/consensus/src):
--   Committee: committee.rs, with Quorum on the thresholds.
--   Types: types.rs, blocks and references, with Digest on what is hashed; Commit: commit.rs, sub-dags
--     and leader status, with Sort on the order of a sub-dag.
--   StakeAggregator: stake_aggregator.rs, with Votes and Collect. The threshold clock (ThresholdClock:
--     threshold_clock.rs, with Rounds) and the soft-commit tracker (SoftCommit: soft_commit.rs, with
--     Tally and Tracking) each keep aggregators.
--   BaseCommitter: base_committer.rs, the election of leaders, with Leaders. Support: votes,
--     certificates and blames, with Tally (the loops over authorities), Certificates (the cache of votes),
--     Supports and Search (the search for a supported block), Kept and Blame (who blames), Conflict and
--     Equivocation (blame against certificates). Decide: the two commit rules, with Slots.
--   UniversalCommitter: universal_committer.rs, which runs the rules over the rounds, with Prefix,
--     Steps and Order. Ends, under each of the three, is about termination.
--   DagState: dag_state.rs, with Store on what it holds; Outcome is how a traversal can end. Causal:
--     `get_causal_blocks`, with Fuel. Ancestors: `ancestors_at_round`, with Ascending and Fuel.
--   BlockManager: block_manager.rs, with Accept (the calls that write the DAG), Waits, Settle and
--     Release (who waits for whom), Growth, Drop and Invariant.
--   Node: node.rs, the composition: `accept_blocks` calls the block manager, the soft-commit tracker,
--     the universal committer and the linearizer in turn. Events, Commits, Order and Start are
--     its proofs.
--   Linearizer: linearizer.rs, with Counts (every block once), Fuel (the traversal ends),
--     Closure (no ancestor is left out), ReadOnly (against `get_causal_blocks`) and History
--     (sequences of commits).
-- ShadowState: crates/shadow-state/src/lib.rs, the speculative layers above the canonical database.
--   Execution: `record_tx_execution`, `abort_tx` and `commit_tx_execution`, with Versions and Effects
--     on what they do to every slot. Validation: `validate_round` and `cascade_invalidate`, with
--     Versions and Stale on the first, Affected and Cascade on the second.
--   Commit: `stage_commit` and `finalize_commit`, with Finality. Readlast: the lookups, with Reads.
-- NodeCrate: crates/node/src/lib.rs. Config: `NodeConfig::from_env`, with Print. Wrapper: the log of
--   commit decisions. ParallelEvm: crates/parallel-evm/src/lib.rs, the mock executor.
-- Base: the maps, sets, tests and lists that the parts share.
--
-- Conventions. A u32 or u64 addition is `add32` or `add64`, with its wrap-around, and `sub32` and
-- `mul32` are the like. `none`, or `panic` of Outcome, is a panic of the source; `debug_assert!` is off, as in release builds;
-- `checked_leader_round` and `checked_decision_round` are a build with overflow checks. Maps and sets are
-- ordered association lists and lists. A channel is the list of what was sent over it. A mutable
-- object is passed on from call to call; the committee of the shared context is an argument. Digests
-- are the numbers that their bytes spell. SHA3-256, the account infos of revm and the operations of
-- the canonical database are parameters. Locks are not modelled: a method that holds one is a step.
--
-- Fuel. The loop of `drain_dispatchable` takes one round more than there are entries, and every
-- round of it turns a queued entry into a dispatched one. The traversal of `linearize_sub_dag` takes
-- two more than the DAG has blocks, and every block it pushes was not committed before; that of
-- `get_causal_blocks` takes the same, and every block it pushes was not visited before. The search for a
-- supported block takes one more than the round of the block it starts from and the blocks of the DAG
-- together: that is enough where ancestors lie at lower rounds, and where they do not, a recursion
-- that is deeper comes to a block a second time and never returns. `ancestors_at_round` takes as
-- many rounds as there are sets of the ancestors of the later block and of all blocks of the DAG: that is
-- enough where ancestors lie at lower rounds, so that no reference is popped twice, and where they do
-- not, a loop that runs longer comes to a set a second time and never ends.
--
-- Not modelled: the tasks, channels and metrics of crates/node, crates/testkit and
-- crates/consensus/src/sim, which are asynchronous glue and test fixtures; the traits of
-- crates/parallel-evm, which nothing implements; the channel on which a node broadcasts its events
-- and its receivers; formatting and tracing.
pub mod Base
pub mod Shared
pub mod Scheduler
pub mod Consensus
pub mod ShadowState
pub mod NodeCrate
pub mod ParallelEvm
