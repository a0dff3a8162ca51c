-- ===== src/NodeCrate/Wrapper.antt =====
-- `MockCommitWrapper` of crates/node/src/lib.rs: the loop that logs the decisions of the scheduler. The
-- channel that it reads until it closes is a list.
use dual_optimistic_l.Base.{ℕ, List, [], ◌∷◌, ◌++◌, length}
use dual_optimistic_l.Scheduler.Pipeline.{CommitDecision}

pub data CommitEvent : Type 0 where
  commit : ℕ → ℕ → CommitEvent
  discard : ℕ → CommitEvent
  fresh_batch : ℕ → ℕ → ℕ → CommitEvent

unfoldable pub event_of : CommitDecision → CommitEvent
event_of (CommitDecision.commit commit_index round) = CommitEvent.commit commit_index round
event_of (CommitDecision.discard commit_index) = CommitEvent.discard commit_index
event_of (CommitDecision.fresh_batch batch) =
    CommitEvent.fresh_batch batch.round batch.commit_index (length batch.txs)

unfoldable pub run : List CommitEvent → List CommitDecision → List CommitEvent
run events [] = events
run events (decision ∷ rest) = run (events ++ (event_of decision ∷ [])) rest
