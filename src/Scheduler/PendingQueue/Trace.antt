-- ===== src/Scheduler/PendingQueue/Trace.antt =====
-- Whole histories of calls of the pending queue, with all that they dispatch.
use mathlib.Core.List.{map-append}
use dual_optimistic_l.Base.{
  ℕ, zero, suc, ◌+◌, ◌≡◌, ◌≢◌, refl, ap, ◌∙◌, none, List, [], ◌∷◌, ◌++◌, length, length-append,
  add64, arith, ◌==◌, if◌then◌else◌,
}
use dual_optimistic_l.Base.Key.{nat_key}
use dual_optimistic_l.Base.Map
use dual_optimistic_l.Base.Map.{Map, get-insert, get-remove}
use dual_optimistic_l.Shared.{EthSignedTx}
use dual_optimistic_l.Scheduler.PendingQueue.{
  PendingQueue, queued, commit, fresh_execution, wave_length, insert, queued_txs, head_txs,
  drain_loop, drain_dispatchable, is_dispatched, on_hard_commit,
}
use dual_optimistic_l.Scheduler.PendingQueue.Dispatch.{
  rounds_from, round_after, rounds_of, drain_dispatchable-rounds,
}

-- The decision is a commit exactly if the entry of the round was dispatched, and a fresh execution
-- otherwise. The entry is gone, and every other entry and the round that is due are as they were.
pub on_hard_commit_lem :
    (q : PendingQueue) (r ci j : ℕ)
    → let (q', d) = on_hard_commit q r ci in
      (d ≡ (if is_dispatched (Map.get r q.entries) then commit r ci else fresh_execution r ci))
      × (Map.get j q'.entries ≡ (if j == r then none else Map.get j q.entries))
      × (q'.next_dispatch_round ≡ q.next_dispatch_round)
unfolding on_hard_commit
on_hard_commit_lem q r ci j = (ground arith, get-remove j r q.entries, refl)

pub data Call : Type 0 where
  inserts : ℕ → List EthSignedTx → Call
  drains : Call
  hard_commits : ℕ → ℕ → Call

-- The queue after a call, and what the call dispatches.
abbrev pub step : Call → PendingQueue → PendingQueue × List (ℕ × List EthSignedTx)
step (inserts r txs) q = (insert q r txs, [])
step drains q = drain_dispatchable q
step (hard_commits r ci) q = ((on_hard_commit q r ci).0, [])

pub run : List Call → PendingQueue → PendingQueue × List (ℕ × List EthSignedTx)
run [] q = (q, [])
run (c ∷ cs) q = let (q', out) = step c q in let (q'', later) = run cs q' in (q'', out ++ later)

pub rounds_from-add :
    (r m n : ℕ) → rounds_from r m ++ rounds_from (round_after r m) n ≡ rounds_from r (m + n)
rounds_from-add r zero n = ap (rounds_from r) (omega arith)
rounds_from-add r (suc m) n =
    let e : suc m + n ≡ suc (m + n) = omega arith in
    rw e (ap (◌∷◌ r) (rounds_from-add (add64 r wave_length) m n))

pub round_after-add : (r m n : ℕ) → round_after (round_after r m) n ≡ round_after r (m + n)
round_after-add r zero n = ap (round_after r) {x = n} {y = 0 + n} (omega arith)
round_after-add r (suc m) n =
    let e : suc m + n ≡ suc (m + n) = omega arith in
    rw e (round_after-add (add64 r wave_length) m n)

step-rounds :
    (c : Call) (q : PendingQueue)
    → let (q', out) = step c q in
      (rounds_of out ≡ rounds_from q.next_dispatch_round (length out))
      × (q'.next_dispatch_round ≡ round_after q.next_dispatch_round (length out))
unfolding insert on_hard_commit
step-rounds (inserts r txs) q = (refl, refl)
step-rounds drains q = drain_dispatchable-rounds q
step-rounds (hard_commits r ci) q = (refl, refl)

-- Whatever calls are made, the rounds dispatched over the whole history are the consecutive leader
-- rounds from the first one due: none is skipped, repeated or out of order.
pub run-rounds :
    (cs : List Call) (q : PendingQueue)
    → let out = (run cs q).1 in rounds_of out ≡ rounds_from q.next_dispatch_round (length out)
unfolding run
run-rounds [] q = refl
run-rounds (c ∷ cs) q =
    let (q', out) = step c q in
    let (e, f) = step-rounds c q in
    map-append _ out (run cs q').1
    ∙ rw (e, run-rounds cs q', f, length-append out (run cs q').1)
        (rounds_from-add q.next_dispatch_round (length out) (length (run cs q').1))

-- No call inserts round `r`.
abbrev pub Avoids : ℕ → List Call → Type 0
Avoids r [] = Unit
Avoids r (inserts j txs ∷ cs) = (j ≢ r) × Avoids r cs
Avoids r (drains ∷ cs) = Avoids r cs
Avoids r (hard_commits j ci ∷ cs) = Avoids r cs

drain_idle : (q : PendingQueue) → head_txs q ≡ none → drain_dispatchable q ≡ (q, [])
unfolding drain_dispatchable drain_loop
drain_idle q h = rw (h, drain_loop)

-- The due round has no entry: then no call but its insertion brings anything out.
run-stalled :
    (cs : List Call) (q : PendingQueue)
    → Map.get q.next_dispatch_round q.entries ≡ none
    → Avoids q.next_dispatch_round cs
    → (run cs q).1 ≡ []
unfolding run insert on_hard_commit
run-stalled [] q h a = refl
run-stalled (inserts r txs ∷ cs) q h a =
    run-stalled cs (insert q r txs)
      (ground (
        arith,
        get-insert q.next_dispatch_round r (record { txs = txs; status = queued }) q.entries,
      ))
      a.1
run-stalled (drains ∷ cs) q h a = rw (drain_idle q (ap queued_txs h)) (run-stalled cs q h a)
run-stalled (hard_commits r ci ∷ cs) q h a =
    run-stalled cs (on_hard_commit q r ci).0
      (ground (arith, get-remove q.next_dispatch_round r q.entries)) a

-- After a HardCommit of the round that is due, no history of calls that does not insert this round
-- dispatches anything.
pub on_hard_commit-stalls :
    (q : PendingQueue) (ci : ℕ) (cs : List Call)
    → Avoids q.next_dispatch_round cs
    → (run cs (on_hard_commit q q.next_dispatch_round ci).0).1 ≡ []
unfolding on_hard_commit
on_hard_commit-stalls q ci cs a =
    run-stalled cs (on_hard_commit q q.next_dispatch_round ci).0
      (ground (arith, get-remove q.next_dispatch_round q.next_dispatch_round q.entries)) a
