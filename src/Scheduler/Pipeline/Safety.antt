-- ===== src/Scheduler/Pipeline/Safety.antt =====
-- What the executor and the commit layer are sent over a whole run of the scheduler.
use mathlib.Core.Path.{subst}
use mathlib.Core.Bool.{or-true}
use dual_optimistic_l.Base.{
  ℕ, ◌≡◌, refl, inl, inr, Option, none, some, List, [], ◌∷◌, ◌++◌, map, All, any, if_intro,
  Option-cases, arith, ◌==◌, Bool, true, false, ◌||◌,
}
use dual_optimistic_l.Base.Key.{nat_key}
use dual_optimistic_l.Base.Map
use dual_optimistic_l.Base.Map.{Map, get-insert, get-remove}
use dual_optimistic_l.Shared.{EthSignedTx, OurCommittedSubDag, ConsensusEvent, TxBatch}
use dual_optimistic_l.Scheduler.PendingQueue
use dual_optimistic_l.Scheduler.PendingQueue.{
  PendingQueue, PendingEntry, EntryStatus, queued, dispatched, is_dispatched, drain_dispatchable,
}
use dual_optimistic_l.Scheduler.PendingQueue.Dispatch.{out_txs, Settled, drain_dispatchable-entries}
use dual_optimistic_l.Scheduler.PendingQueue.Trace.{on_hard_commit_lem}
use dual_optimistic_l.Scheduler.Pipeline.{
  CommitDecision, commit, discard, fresh_batch, PipelineScheduler, new, to_batch, flush_pending,
  buffered, handle_soft_commit, to_decision, handle_hard_commit, handle_consensus_event, Input,
  event, lagged, events_closed, signal, signals_closed, run,
}

abbrev pub at_round : ℕ → TxBatch → Bool
at_round r b = b.round == r

abbrev pub was_sent : ℕ → List TxBatch → Bool
was_sent r = any (at_round r)

-- A decision that the executor's channel bears out: a confirmed round was sent to it before.
abbrev pub Backed : List TxBatch → CommitDecision → Type 0
Backed out (commit ci r) = was_sent r out ≡ true
Backed out (discard ci) = ⊥
Backed out (fresh_batch b) = b.is_optimistic ≡ false

pub record IsBacked (s : PipelineScheduler) : Type 0 where
  pub sent :
      (r : ℕ)
      → is_dispatched (Map.get r s.pending.entries) ≡ true
      → was_sent r s.executor_out ≡ true
  pub confirmed : All (Backed s.executor_out) s.commit_out

was_sent-append :
    (r : ℕ) (xs ys : List TxBatch) → was_sent r (xs ++ ys) ≡ (was_sent r xs || was_sent r ys)
was_sent-append r [] ys = refl
was_sent-append r (b ∷ xs) ys = ground (arith, was_sent-append r xs ys)

was_sent-out :
    (r : ℕ) (out : List (ℕ × List EthSignedTx)) (txs : List EthSignedTx)
    → out_txs r out ≡ some txs
    → was_sent r (map to_batch out) ≡ true
was_sent-out r [] txs h = cc
was_sent-out r ((j, t) ∷ out) txs h = ground (arith, was_sent-out r out txs)

Backed-append : (xs ys : List TxBatch) (d : CommitDecision) → Backed xs d → Backed (xs ++ ys) d
Backed-append xs ys (commit ci r) h = rw (was_sent-append r xs ys, h)
Backed-append xs ys (discard ci) h = absurd h
Backed-append xs ys (fresh_batch b) h = h

All-Backed-append :
    (xs ys : List TxBatch) (ds : List CommitDecision)
    → All (Backed xs) ds
    → All (Backed (xs ++ ys)) ds
All-Backed-append xs ys [] h = tt
All-Backed-append xs ys (d ∷ ds) h = (Backed-append xs ys d h.0, All-Backed-append xs ys ds h.1)

All-snoc {ℓ κ} :
    {A : Type ℓ} (P : A → Type κ) (xs : List A) (x : A) → All P xs → P x → All P (xs ++ x ∷ [])
All-snoc P [] x h p = (p, tt)
All-snoc P (y ∷ xs) x h p = (h.0, All-snoc P xs x h.1 p)

flush-sent :
    (before after : Option PendingEntry) (r : ℕ) (out : List (ℕ × List EthSignedTx))
    (old : List TxBatch)
    → Settled before after (out_txs r out)
    → (is_dispatched before ≡ true → was_sent r old ≡ true)
    → is_dispatched after ≡ true
    → was_sent r (old ++ map to_batch out) ≡ true
flush-sent before after r out old s h d = elim (Option-cases (out_txs r out)) [
  | inl e ↦
      let t : Settled before after none = subst (Settled before after) e s in
      rw (was_sent-append r old (map to_batch out), h (rw t at d))
  | inr (txs, e) ↦ rw (was_sent-append, was_sent-out r out txs e) (or-true _)
]

flush_pending-IsBacked : (s : PipelineScheduler) → IsBacked s → IsBacked (flush_pending s)
unfolding flush_pending
flush_pending-IsBacked s b = record {
  sent = λ r.
      flush-sent (Map.get r s.pending.entries) _ r (drain_dispatchable s.pending).1 s.executor_out
        (drain_dispatchable-entries s.pending r) (b.sent r);
  confirmed = All-Backed-append s.executor_out _ s.commit_out b.confirmed;
}

buffered-IsBacked :
    (s : PipelineScheduler) (r : ℕ) (txs : List EthSignedTx)
    → IsBacked s
    → IsBacked (buffered s r txs)
unfolding PendingQueue.insert
buffered-IsBacked s r txs b = record {
  sent = λ j h.
      b.sent j
        (ground (arith, get-insert j r (record { txs = txs; status = queued }) s.pending.entries));
  confirmed = b.confirmed;
}

handle_soft_commit-IsBacked :
    (s : PipelineScheduler) (r : ℕ) (txs : List EthSignedTx)
    → IsBacked s
    → IsBacked (handle_soft_commit s r txs)
unfolding handle_soft_commit
handle_soft_commit-IsBacked s r txs b =
    let t = buffered s r txs in
    let bt : IsBacked t = buffered-IsBacked s r txs b in
    if_intro IsBacked t.backpressure.paused t (flush_pending t) (λ _. bt)
      (λ _. flush_pending-IsBacked t bt)

decision-Backed :
    (s : PipelineScheduler) (d : OurCommittedSubDag)
    → IsBacked s
    → Backed s.executor_out
        (to_decision d (PendingQueue.on_hard_commit s.pending d.leader.round d.commit_index).1)
decision-Backed s d b =
    let r = d.leader.round in
    rw ((on_hard_commit_lem s.pending r d.commit_index r).0) (
      if_intro (λ x. Backed s.executor_out (to_decision d x))
        (is_dispatched (Map.get r s.pending.entries)) _ _ (λ e. b.sent r e) (λ _. refl))

handle_hard_commit-IsBacked :
    (s : PipelineScheduler) (d : OurCommittedSubDag)
    → IsBacked s
    → IsBacked (handle_hard_commit s d)
unfolding handle_hard_commit
handle_hard_commit-IsBacked s d b = record {
  sent = λ j h. b.sent j (still s d j h);
  confirmed = All-snoc (Backed s.executor_out) s.commit_out _ b.confirmed (decision-Backed s d b);
}
  where
    still :
        (s : PipelineScheduler) (d : OurCommittedSubDag) (j : ℕ)
        → is_dispatched (
            Map.get j
              (PendingQueue.on_hard_commit s.pending d.leader.round d.commit_index).0.entries)
          ≡ true
        → is_dispatched (Map.get j s.pending.entries) ≡ true
    still s d j h = ground (arith, on_hard_commit_lem s.pending d.leader.round d.commit_index j)

handle_consensus_event-IsBacked :
    (s : PipelineScheduler) (e : ConsensusEvent)
    → IsBacked s
    → IsBacked (handle_consensus_event s e)
unfolding handle_consensus_event
handle_consensus_event-IsBacked s (ConsensusEvent.soft_commit r l txs) b =
    handle_soft_commit-IsBacked s r txs b
handle_consensus_event-IsBacked s (ConsensusEvent.hard_commit d) b =
    handle_hard_commit-IsBacked s d b

run-IsBacked : (is : List Input) (s : PipelineScheduler) → IsBacked s → IsBacked (run is s)
unfolding run
run-IsBacked [] s b = b
run-IsBacked (event e ∷ is) s b =
    run-IsBacked is (handle_consensus_event s e) (handle_consensus_event-IsBacked s e b)
run-IsBacked (lagged n ∷ is) s b = run-IsBacked is s b
run-IsBacked (events_closed ∷ is) s b = b
run-IsBacked (signal x ∷ is) s b =
    run-IsBacked is _ (record { sent = b.sent; confirmed = b.confirmed })
run-IsBacked (signals_closed ∷ is) s b = b

-- Whatever the scheduler receives, it sends no `Discard`, every `Commit` names a round whose batch
-- it has sent to the executor, and every fresh batch is a final one.
pub run-Backed : (is : List Input) → let s = run is new in All (Backed s.executor_out) s.commit_out
unfolding new Map.get
run-Backed is = (run-IsBacked is new (record { sent = λ r h. cc; confirmed = tt })).confirmed
