-- ===== src/Scheduler/Pipeline.antt =====
-- crates/scheduler/src/pipeline.rs: the event loop between consensus and executor. What the loop
-- selects is an explicit sequence of inputs; the channels to the executor and to the commit layer
-- are the lists of what was sent, oldest first (a send to a closed channel is ignored, as there).
pub mod Safety
pub mod Order
use mathlib.Core.List.{flat_map}
use dual_optimistic_l.Base.{ℕ, ◌/◌, Bool, true, false, List, [], ◌∷◌, ◌++◌, map, if◌then◌else◌}
use dual_optimistic_l.Shared.{
  EthSignedTx, OurVerifiedBlock, OurCommittedSubDag, ConsensusEvent, TxBatch, BackpressureSignal,
  slow_down, resume,
}
use dual_optimistic_l.Scheduler.PendingQueue
use dual_optimistic_l.Scheduler.PendingQueue.{PendingQueue, HardCommitDecision}
use dual_optimistic_l.Scheduler.Backpressure
use dual_optimistic_l.Scheduler.Backpressure.{BackpressureController}

abbrev pub default_threshold : ℕ
default_threshold = 16

abbrev pub first_leader_round : ℕ
first_leader_round = 3

abbrev pub wave_length : ℕ
wave_length = 3

pub data CommitDecision : Type 0 where
  commit : ℕ → ℕ → CommitDecision
  discard : ℕ → CommitDecision
  fresh_batch : TxBatch → CommitDecision

pub record PipelineScheduler : Type 0 where
  pub backpressure : BackpressureController
  pub pending : PendingQueue
  pub executor_out : List TxBatch
  pub commit_out : List CommitDecision

unfoldable pub new : PipelineScheduler
unfolding Backpressure.new PendingQueue.new
new = record {
  backpressure = Backpressure.new default_threshold;
  pending = PendingQueue.new first_leader_round default_threshold;
  executor_out = [];
  commit_out = [];
}

-- The optimistic batch of one dispatched entry.
abbrev pub to_batch : ℕ × List EthSignedTx → TxBatch
to_batch (round, txs) = record {
  round = round;
  commit_index = round / wave_length;
  txs = txs;
  is_optimistic = true;
}

unfoldable pub flush_pending : PipelineScheduler → PipelineScheduler
flush_pending s =
    let (pending, out) = PendingQueue.drain_dispatchable s.pending in
    record s {
      pending = pending;
      executor_out = s.executor_out ++ map to_batch out;
      backpressure = Backpressure.check s.backpressure (PendingQueue.depth pending);
    }

-- The state of `handle_soft_commit` when it comes to its test.
abbrev pub buffered : PipelineScheduler → ℕ → List EthSignedTx → PipelineScheduler
buffered s round txs =
    let pending = PendingQueue.insert s.pending round txs in
    record s {
      pending = pending;
      backpressure = Backpressure.check s.backpressure (PendingQueue.depth pending);
    }

unfoldable pub handle_soft_commit : PipelineScheduler → ℕ → List EthSignedTx → PipelineScheduler
handle_soft_commit s round txs =
    let t = buffered s round txs in if t.backpressure.paused then t else flush_pending t

-- The transactions of all blocks of a sub-dag, in its order.
abbrev pub subdag_txs : OurCommittedSubDag → List EthSignedTx
subdag_txs d = flat_map (λ (b : OurVerifiedBlock). b.txs) d.blocks

abbrev pub to_decision : OurCommittedSubDag → HardCommitDecision → CommitDecision
to_decision d (HardCommitDecision.commit round commit_index) = commit commit_index round
to_decision d (HardCommitDecision.fresh_execution round commit_index) = fresh_batch (record {
  round = round;
  commit_index = commit_index;
  txs = subdag_txs d;
  is_optimistic = false;
})

unfoldable pub handle_hard_commit : PipelineScheduler → OurCommittedSubDag → PipelineScheduler
handle_hard_commit s d =
    let (pending, decision) = PendingQueue.on_hard_commit s.pending d.leader.round d.commit_index in
    record s { pending = pending; commit_out = s.commit_out ++ to_decision d decision ∷ [] }

unfoldable pub handle_consensus_event : PipelineScheduler → ConsensusEvent → PipelineScheduler
handle_consensus_event s (ConsensusEvent.soft_commit round leader txs) =
    handle_soft_commit s round txs
handle_consensus_event s (ConsensusEvent.hard_commit d) = handle_hard_commit s d

-- What `select!` yields in one round of the loop.
pub data Input : Type 0 where
  event : ConsensusEvent → Input
  lagged : ℕ → Input
  events_closed : Input
  signal : BackpressureSignal → Input
  signals_closed : Input

unfoldable pub run : List Input → PipelineScheduler → PipelineScheduler
run [] s = s
run (event e ∷ is) s = run is (handle_consensus_event s e)
run (lagged n ∷ is) s = run is s
run (events_closed ∷ is) s = s
run (signal b ∷ is) s = run is (record s { backpressure = Backpressure.update s.backpressure b })
run (signals_closed ∷ is) s = s
