-- ===== src/Scheduler/Tests.antt =====
-- Concrete runs of crates/scheduler: two SoftCommits in order and one ahead of its turn, then
-- HardCommits of a dispatched and of an undispatched round.
use dual_optimistic_l.Base.{
  ℕ, ◌/◌, ◌≡◌, true, false, none, List, [], ◌∷◌, ◌++◌, map, All, length, ltb, if◌then◌else◌, arith,
}
use dual_optimistic_l.Base.Key.{nat_key}
use dual_optimistic_l.Shared.{BlockRef, OurCommittedSubDag, ConsensusEvent, slow_down, resume}
use dual_optimistic_l.Scheduler.PendingQueue.{
  PendingQueue, PendingEntry, queued, head_txs, drain_dispatchable, on_hard_commit,
}
use dual_optimistic_l.Scheduler.PendingQueue.Dispatch.{rounds_from, drain_dispatchable-stops}
use dual_optimistic_l.Scheduler.PendingQueue.Trace
use dual_optimistic_l.Scheduler.PendingQueue.Trace.{
  Call, inserts, drains, hard_commits, on_hard_commit_lem, run-rounds, on_hard_commit-stalls,
}
use dual_optimistic_l.Scheduler.Backpressure.{BackpressureController, check, edge, check_hysteresis}
use dual_optimistic_l.Scheduler.Pipeline
use dual_optimistic_l.Scheduler.Pipeline.{Input, event, lagged, signal, first_leader_round}
use dual_optimistic_l.Scheduler.Pipeline.Safety.{Backed, run-Backed}
use dual_optimistic_l.Scheduler.Pipeline.Order.{
  batch_rounds, index_of, run_sends_in_order, run_answers,
}

abbrev waiting : PendingEntry
waiting = record { txs = (1 ∷ 2 ∷ []) ∷ []; status = queued }

abbrev three_entries : PendingQueue
three_entries = record {
  entries = (3, waiting) ∷ (6, waiting) ∷ (12, waiting) ∷ [];
  next_dispatch_round = 3;
  threshold = 16;
}

drain_dispatchable-stops_example : head_txs (drain_dispatchable three_entries).0 ≡ none
drain_dispatchable-stops_example = drain_dispatchable-stops three_entries (ground arith)

abbrev calls : List Call
calls = inserts 6 ((9 ∷ []) ∷ []) ∷ drains ∷ inserts 3 [] ∷ drains ∷ hard_commits 3 1 ∷ []

abbrev later_calls : List Call
later_calls = inserts 9 [] ∷ drains ∷ []

on_hard_commit-stalls_example :
    (Trace.run later_calls (on_hard_commit three_entries three_entries.next_dispatch_round 1).0).1
    ≡ []
on_hard_commit-stalls_example = on_hard_commit-stalls three_entries 1 later_calls (ground arith)

abbrev running : BackpressureController
running = record { threshold = 4; paused = false; signals = [] }

check_hysteresis_example :
    let c' = check running 5 in
    (c'.paused ≡ (if ltb 4 5 then true else if ltb 5 (4 / 2) then false else false))
    × (c'.signals ≡ [] ++ edge false c'.paused)
    × (check c' 5 ≡ c')
check_hysteresis_example = check_hysteresis running 5

abbrev leader_at : ℕ → BlockRef
leader_at r = record { round = r; author = 0; digest = r }

abbrev sub_dag_at : ℕ → ℕ → OurCommittedSubDag
sub_dag_at r ci = record {
  leader = leader_at r;
  blocks = record { block_ref = leader_at r; txs = (7 ∷ []) ∷ [] } ∷ [];
  timestamp_ms = 0;
  commit_index = ci;
}

abbrev inputs : List Input
inputs =
    event (ConsensusEvent.soft_commit 3 (leader_at 3) ((7 ∷ []) ∷ []))
    ∷ lagged 2
    ∷ event (ConsensusEvent.hard_commit (sub_dag_at 3 1))
    ∷ signal slow_down
    ∷ event (ConsensusEvent.soft_commit 6 (leader_at 6) [])
    ∷ event (ConsensusEvent.hard_commit (sub_dag_at 9 2))
    ∷ signal resume
    ∷ []

run-Backed_example :
    let s = Pipeline.run inputs Pipeline.new in All (Backed s.executor_out) s.commit_out
run-Backed_example = run-Backed inputs

run_sends_in_order_example :
    let out = (Pipeline.run inputs Pipeline.new).executor_out in
    batch_rounds out ≡ rounds_from first_leader_round (length out)
run_sends_in_order_example = run_sends_in_order inputs

run_answers_example : map index_of (Pipeline.run inputs Pipeline.new).commit_out ≡ 1 ∷ 2 ∷ []
run_answers_example = run_answers inputs
