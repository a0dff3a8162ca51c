-- ===== src/ParallelEvm.antt =====
-- `MockExecutor` of crates/parallel-evm/src/lib.rs: the loop that logs the batches it receives. The channels
-- are lists; of the delay, only whether it is zero is tested.
use dual_optimistic_l.Base.{ℕ, Bool, List, [], ◌∷◌, ◌++◌, length, ltb, if◌then◌else◌}
use dual_optimistic_l.Shared.{TxBatch, BackpressureSignal}

pub record ExecutorEvent : Type 0 where
  pub round : ℕ
  pub commit_index : ℕ
  pub is_optimistic : Bool
  pub tx_count : ℕ

pub record MockExecutor : Type 0 where
  pub received : List ExecutorEvent
  pub delay_ms : ℕ
  pub backpressure_out : List BackpressureSignal

unfoldable pub new : MockExecutor
new = record { received = []; delay_ms = 0; backpressure_out = [] }

unfoldable pub new_with_delay : ℕ → MockExecutor
new_with_delay delay_ms = record { received = []; delay_ms = delay_ms; backpressure_out = [] }

abbrev pub signals : ℕ → List BackpressureSignal
signals delay_ms =
    if ltb 0 delay_ms then BackpressureSignal.slow_down ∷ BackpressureSignal.resume ∷ [] else []

-- One batch.
unfoldable pub acknowledge : MockExecutor → TxBatch → MockExecutor
acknowledge e batch = record e {
  received =
      e.received
      ++ (record {
        round = batch.round;
        commit_index = batch.commit_index;
        is_optimistic = batch.is_optimistic;
        tx_count = length batch.txs;
      }
          ∷ []);
  backpressure_out = e.backpressure_out ++ signals e.delay_ms;
}

unfoldable pub run : MockExecutor → List TxBatch → MockExecutor
run e [] = e
run e (batch ∷ rest) = run (acknowledge e batch) rest
