-- ===== src/Scheduler/Pipeline/Order.antt =====
-- The order in which a run of the scheduler sends batches and decisions.
use mathlib.Core.List.{map-append, append_assoc, append-nil}
use dual_optimistic_l.Base.{
  ℕ, suc, ◌+◌, ◌≡◌, refl, sym, ap, ◌∙◌, List, [], ◌∷◌, ◌++◌, map, length, length-append, if_intro,
}
use dual_optimistic_l.Base.Key.{nat_key}
use dual_optimistic_l.Base.Map
use dual_optimistic_l.Shared.{EthSignedTx, OurCommittedSubDag, ConsensusEvent, TxBatch}
use dual_optimistic_l.Scheduler.PendingQueue
use dual_optimistic_l.Scheduler.PendingQueue.{PendingQueue, drain_dispatchable, is_dispatched}
use dual_optimistic_l.Scheduler.PendingQueue.Dispatch.{
  rounds_from, round_after, rounds_of, drain_dispatchable-rounds,
}
use dual_optimistic_l.Scheduler.PendingQueue.Trace.{
  on_hard_commit_lem, rounds_from-add, round_after-add,
}
use dual_optimistic_l.Scheduler.Pipeline.{
  CommitDecision, commit, discard, fresh_batch, PipelineScheduler, new, to_batch, flush_pending,
  buffered, handle_soft_commit, to_decision, handle_hard_commit, handle_consensus_event, Input,
  event, lagged, events_closed, signal, signals_closed, run, first_leader_round,
}

abbrev pub batch_rounds : List TxBatch → List ℕ
batch_rounds = map (λ b. b.round)

-- The batches sent are those of the leader rounds up to the one that is due.
abbrev pub InOrder : PipelineScheduler → Type 0
InOrder s =
    (batch_rounds s.executor_out ≡ rounds_from first_leader_round (length s.executor_out))
    × (s.pending.next_dispatch_round ≡ round_after first_leader_round (length s.executor_out))

batch_rounds-map :
    (out : List (ℕ × List EthSignedTx)) → batch_rounds (map to_batch out) ≡ rounds_of out
batch_rounds-map [] = refl
batch_rounds-map ((r, txs) ∷ out) = ap (◌∷◌ r) (batch_rounds-map out)

length-batches : (out : List (ℕ × List EthSignedTx)) → length (map to_batch out) ≡ length out
length-batches [] = refl
length-batches (e ∷ out) = ap suc (length-batches out)

rounds_compose :
    (r n m next : ℕ)
    → next ≡ round_after r n
    → (rounds_from r n ++ rounds_from next m ≡ rounds_from r (n + m))
      × (round_after next m ≡ round_after r (n + m))
rounds_compose r n m next e = rw e (rounds_from-add r n m, round_after-add r n m)

flush_pending-InOrder : (s : PipelineScheduler) → InOrder s → InOrder (flush_pending s)
unfolding flush_pending
flush_pending-InOrder s (e, f) =
    let out = (drain_dispatchable s.pending).1 in
    let (g, h) = drain_dispatchable-rounds s.pending in
    let (c, k) = rounds_compose first_leader_round (length s.executor_out) (length out) _ f in
    rw (length-append s.executor_out (map to_batch out), length-batches out)
      (map-append _ s.executor_out (map to_batch out) ∙ rw (e, batch_rounds-map out, g) c, h ∙ k)

handle_soft_commit-InOrder :
    (s : PipelineScheduler) (r : ℕ) (txs : List EthSignedTx)
    → InOrder s
    → InOrder (handle_soft_commit s r txs)
unfolding handle_soft_commit PendingQueue.insert
handle_soft_commit-InOrder s r txs h =
    let t = buffered s r txs in
    if_intro InOrder t.backpressure.paused t (flush_pending t) (λ _. h)
      (λ _. flush_pending-InOrder t h)

handle_consensus_event-InOrder :
    (s : PipelineScheduler) (e : ConsensusEvent) → InOrder s → InOrder (handle_consensus_event s e)
unfolding handle_consensus_event handle_hard_commit PendingQueue.on_hard_commit
handle_consensus_event-InOrder s (ConsensusEvent.soft_commit r l txs) h =
    handle_soft_commit-InOrder s r txs h
handle_consensus_event-InOrder s (ConsensusEvent.hard_commit d) h = h

run-InOrder : (is : List Input) (s : PipelineScheduler) → InOrder s → InOrder (run is s)
unfolding run
run-InOrder [] s h = h
run-InOrder (event e ∷ is) s h =
    run-InOrder is (handle_consensus_event s e) (handle_consensus_event-InOrder s e h)
run-InOrder (lagged n ∷ is) s h = run-InOrder is s h
run-InOrder (events_closed ∷ is) s h = h
run-InOrder (signal x ∷ is) s h = run-InOrder is _ h
run-InOrder (signals_closed ∷ is) s h = h

-- Whatever the scheduler receives, in whatever order, the batches that it sends to the executor are
-- those of the leader rounds 3, 6, 9, … in that order, with none left out and none twice.
pub run_sends_in_order :
    (is : List Input)
    → let out = (run is new).executor_out in
      batch_rounds out ≡ rounds_from first_leader_round (length out)
unfolding new
run_sends_in_order is = (run-InOrder is new (refl, refl)).0

abbrev pub index_of : CommitDecision → ℕ
index_of (commit ci r) = ci
index_of (discard ci) = ci
index_of (fresh_batch b) = b.commit_index

-- The commit indices of the HardCommits that the loop takes up before it ends.
abbrev pub hard_commits : List Input → List ℕ
hard_commits [] = []
hard_commits (event (ConsensusEvent.soft_commit r l txs) ∷ is) = hard_commits is
hard_commits (event (ConsensusEvent.hard_commit d) ∷ is) = d.commit_index ∷ hard_commits is
hard_commits (lagged n ∷ is) = hard_commits is
hard_commits (events_closed ∷ is) = []
hard_commits (signal b ∷ is) = hard_commits is
hard_commits (signals_closed ∷ is) = []

handle_soft_commit-commit_out :
    (s : PipelineScheduler) (r : ℕ) (txs : List EthSignedTx)
    → (handle_soft_commit s r txs).commit_out ≡ s.commit_out
unfolding handle_soft_commit flush_pending
handle_soft_commit-commit_out s r txs =
    let t = buffered s r txs in
    if_intro (λ u. u.commit_out ≡ s.commit_out) t.backpressure.paused t (flush_pending t)
      (λ _. refl) (λ _. refl)

index_of-decision :
    (s : PipelineScheduler) (d : OurCommittedSubDag)
    → index_of
        (to_decision d (PendingQueue.on_hard_commit s.pending d.leader.round d.commit_index).1)
      ≡ d.commit_index
index_of-decision s d =
    let r = d.leader.round in
    rw ((on_hard_commit_lem s.pending r d.commit_index r).0) (
      if_intro (λ x. index_of (to_decision d x) ≡ d.commit_index)
        (is_dispatched (Map.get r s.pending.entries)) (PendingQueue.commit r d.commit_index)
        (PendingQueue.fresh_execution r d.commit_index) (λ _. refl) (λ _. refl))

run-commit_out :
    (is : List Input) (s : PipelineScheduler)
    → map index_of (run is s).commit_out ≡ map index_of s.commit_out ++ hard_commits is
unfolding run handle_consensus_event handle_hard_commit
run-commit_out [] s = sym (append-nil _)
run-commit_out (event (ConsensusEvent.soft_commit r l txs) ∷ is) s =
    run-commit_out is (handle_soft_commit s r txs) ∙ rw (handle_soft_commit-commit_out s r txs)
run-commit_out (event (ConsensusEvent.hard_commit d) ∷ is) s =
    run-commit_out is (handle_hard_commit s d)
    ∙ rw (map-append, index_of-decision s d)
        (append_assoc (map index_of s.commit_out) (d.commit_index ∷ []) (hard_commits is))
run-commit_out (lagged n ∷ is) s = run-commit_out is s
run-commit_out (events_closed ∷ is) s = sym (append-nil _)
run-commit_out (signal x ∷ is) s = run-commit_out is _
run-commit_out (signals_closed ∷ is) s = sym (append-nil _)

-- Every HardCommit taken up is answered by exactly one decision with its commit index, in order.
pub run_answers : (is : List Input) → map index_of (run is new).commit_out ≡ hard_commits is
unfolding new
run_answers is = run-commit_out is new
