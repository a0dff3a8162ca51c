-- ===== src/Scheduler/PendingQueue.antt =====
-- crates/scheduler/src/pending_queue.rs: the buffer of SoftCommit transactions. The map of entries
-- is an ordered map; the dispatch loop takes fuel, one round more than there are entries.
pub mod Dispatch
pub mod Trace
use dual_optimistic_l.Base.{
  ℕ, zero, suc, Bool, true, false, Option, none, some, List, [], ◌∷◌, length, add64,
}
use dual_optimistic_l.Base.Key.{nat_key}
use dual_optimistic_l.Base.Map
use dual_optimistic_l.Base.Map.{Map}
use dual_optimistic_l.Shared.{EthSignedTx}

abbrev pub wave_length : ℕ
wave_length = 3

pub data EntryStatus : Type 0 where
  queued dispatched : EntryStatus

pub record PendingEntry : Type 0 where
  pub txs : List EthSignedTx
  pub status : EntryStatus

pub data HardCommitDecision : Type 0 where
  commit : ℕ → ℕ → HardCommitDecision
  fresh_execution : ℕ → ℕ → HardCommitDecision

pub record PendingQueue : Type 0 where
  pub entries : Map ℕ PendingEntry
  pub next_dispatch_round : ℕ
  pub threshold : ℕ

unfoldable pub new : ℕ → ℕ → PendingQueue
new first_leader_round threshold = record {
  entries = [];
  next_dispatch_round = first_leader_round;
  threshold = threshold;
}

unfoldable pub insert : PendingQueue → ℕ → List EthSignedTx → PendingQueue
insert q round txs = record q {
  entries = Map.insert round (record { txs = txs; status = queued }) q.entries;
}

-- The payload of an entry that the loop's first match arm takes.
abbrev pub queued_txs : Option PendingEntry → Option (List EthSignedTx)
queued_txs none = none
queued_txs (some e) = elim e.status [ queued ↦ some e.txs | dispatched ↦ none ]

abbrev pub head_txs : PendingQueue → Option (List EthSignedTx)
head_txs q = queued_txs (Map.get q.next_dispatch_round q.entries)

-- One round of the loop: the entry becomes `Dispatched` and the next leader round is due.
unfoldable pub mark : PendingQueue → List EthSignedTx → PendingQueue
mark q txs = record q {
  entries = Map.insert q.next_dispatch_round (record { txs = txs; status = dispatched }) q.entries;
  next_dispatch_round = add64 q.next_dispatch_round wave_length;
}

unfoldable pub drain_loop : ℕ → PendingQueue → PendingQueue × List (ℕ × List EthSignedTx)
drain_loop zero q = (q, [])
drain_loop (suc fuel) q = elim (head_txs q) [
  | none ↦ (q, [])
  | some txs ↦
      let rest = drain_loop fuel (mark q txs) in (rest.0, (q.next_dispatch_round, txs) ∷ rest.1)
]

unfoldable pub drain_dispatchable : PendingQueue → PendingQueue × List (ℕ × List EthSignedTx)
drain_dispatchable q = drain_loop (suc (length q.entries)) q

abbrev pub is_dispatched : Option PendingEntry → Bool
is_dispatched none = false
is_dispatched (some e) = elim e.status [ queued ↦ false | dispatched ↦ true ]

unfoldable pub on_hard_commit : PendingQueue → ℕ → ℕ → PendingQueue × HardCommitDecision
on_hard_commit q round commit_index = (
  record q { entries = Map.remove round q.entries },
  elim (is_dispatched (Map.get round q.entries)) [
    | true ↦ commit round commit_index
    | false ↦ fresh_execution round commit_index
  ],
)

unfoldable pub depth : PendingQueue → ℕ
depth q = length q.entries
