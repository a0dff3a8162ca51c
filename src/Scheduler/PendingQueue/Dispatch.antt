-- ===== src/Scheduler/PendingQueue/Dispatch.antt =====
-- One call of `drain_dispatchable`: that its loop ends by its own test, what it hands out, and what
-- it leaves behind.
use mathlib.Core.List.{map}
use dual_optimistic_l.Base.{
  ℕ, zero, suc, ◌≤◌, ◌<◌, ◌≡◌, refl, sym, ap, ◌∙◌, inl, inr, Option, none, some, List, [], ◌∷◌,
  length, add64, Option-cases, arith, ◌==◌, if◌then◌else◌, Bool, true, false,
}
use dual_optimistic_l.Base.Key.{nat_key}
use dual_optimistic_l.Base.Map
use dual_optimistic_l.Base.Map.{Map, get-insert, get-remove}
use dual_optimistic_l.Base.Map.Order.{IsSorted, Above-trans, insert-IsSorted, get_below}
use dual_optimistic_l.Shared.{EthSignedTx}
use dual_optimistic_l.Scheduler.PendingQueue.{
  PendingQueue, PendingEntry, queued, dispatched, wave_length, queued_txs, head_txs, mark,
  drain_loop, drain_dispatchable,
}

-- The entries that still wait.
abbrev pub queued_count : Map ℕ PendingEntry → ℕ
queued_count [] = 0
queued_count ((r, e) ∷ m) = elim e.status [
  | queued ↦ suc (queued_count m)
  | dispatched ↦ queued_count m
]

queued_count-le : (m : Map ℕ PendingEntry) → queued_count m ≤ length m
queued_count-le [] = omega arith
queued_count-le ((r, e) ∷ m) = ground (arith, queued_count-le m)

queued_count-mark :
    (r : ℕ) (txs : List EthSignedTx) (m : Map ℕ PendingEntry)
    → IsSorted m
    → queued_txs (Map.get r m) ≡ some txs
    → queued_count (Map.insert r (record { txs = txs; status = dispatched }) m) < queued_count m
unfolding Map.insert Map.get
queued_count-mark r txs [] s h = cc
queued_count-mark r txs ((j, e) ∷ m) s h =
    ground
      (arith, queued_count-mark r txs m s.1, get_below j m s.0, Above-trans r j m, get_below r m)

drain_loop-stops :
    (fuel : ℕ) (q : PendingQueue)
    → IsSorted q.entries
    → queued_count q.entries < fuel
    → head_txs (drain_loop fuel q).0 ≡ none
unfolding drain_loop mark
drain_loop-stops zero q s h = absurd (omega arith)
drain_loop-stops (suc fuel) q s h = elim (Option-cases (head_txs q)) [
  | inl e ↦ rw (e, drain_loop) e
  | inr (txs, e) ↦
      rw (e, drain_loop)
        (drain_loop-stops fuel (mark q txs) (insert-IsSorted _ _ q.entries s)
          (omega (arith, queued_count-mark q.next_dispatch_round txs q.entries s e)))
]

-- Where the entries stand in ascending order of their rounds, as in an ordered map, the loop ends
-- by its own test, never for want of fuel: afterwards the round that is due has no queued entry.
pub drain_dispatchable-stops :
    (q : PendingQueue) → IsSorted q.entries → head_txs (drain_dispatchable q).0 ≡ none
unfolding drain_dispatchable
drain_dispatchable-stops q s = drain_loop-stops _ q s (omega (arith, queued_count-le q.entries))

-- `n` leader rounds from `r` on, and the leader round behind them, in u64 arithmetic.
abbrev pub rounds_from : ℕ → ℕ → List ℕ
rounds_from r zero = []
rounds_from r (suc n) = r ∷ rounds_from (add64 r wave_length) n

abbrev pub round_after : ℕ → ℕ → ℕ
round_after r zero = r
round_after r (suc n) = round_after (add64 r wave_length) n

abbrev pub rounds_of : List (ℕ × List EthSignedTx) → List ℕ
rounds_of = map (λ e. e.0)

-- The rounds handed out are the leader rounds from the one that was due on, and the round now due
-- is the one behind them.
drain_loop-rounds :
    (fuel : ℕ) (q : PendingQueue)
    → let (q', out) = drain_loop fuel q in
      (rounds_of out ≡ rounds_from q.next_dispatch_round (length out))
      × (q'.next_dispatch_round ≡ round_after q.next_dispatch_round (length out))
unfolding drain_loop mark
drain_loop-rounds zero q = (refl, refl)
drain_loop-rounds (suc fuel) q = elim (Option-cases (head_txs q)) [
  | inl e ↦ rw (e, drain_loop) (refl, refl)
  | inr (txs, e) ↦
      let (ih, jh) = drain_loop-rounds fuel (mark q txs) in
      rw (e, drain_loop) (ap (◌∷◌ q.next_dispatch_round) ih, jh)
]

-- The rounds that a call hands out are the leader rounds from the one that was due on, and the
-- round then due is the one behind them.
pub drain_dispatchable-rounds :
    (q : PendingQueue)
    → let (q', out) = drain_dispatchable q in
      (rounds_of out ≡ rounds_from q.next_dispatch_round (length out))
      × (q'.next_dispatch_round ≡ round_after q.next_dispatch_round (length out))
unfolding drain_dispatchable
drain_dispatchable-rounds q = drain_loop-rounds _ q

-- What a lookup finds after a call: an entry keeps its transactions, and it changes from queued to
-- dispatched exactly if the call hands it out.
abbrev pub out_txs : ℕ → List (ℕ × List EthSignedTx) → Option (List EthSignedTx)
out_txs r [] = none
out_txs r ((j, txs) ∷ out) = if r == j then some txs else out_txs r out

abbrev pub Settled : Option PendingEntry → Option PendingEntry → Option (List EthSignedTx) → Type 0
Settled before after none = after ≡ before
Settled before after (some txs) =
    (before ≡ some (record { txs = txs; status = queued }))
    × (after ≡ some (record { txs = txs; status = dispatched }))

queued_entry :
    (o : Option PendingEntry) (txs : List EthSignedTx)
    → queued_txs o ≡ some txs
    → o ≡ some (record { txs = txs; status = queued })
queued_entry none txs h = cc
queued_entry (some e) txs h = ground arith

Settled-later :
    (before marked after : Option PendingEntry) (txs : List EthSignedTx) (due : Bool)
    (rest : Option (List EthSignedTx))
    → (due ≡ true → before ≡ some (record { txs = txs; status = queued }))
    → marked ≡ (if due then some (record { txs = txs; status = dispatched }) else before)
    → Settled marked after rest
    → Settled before after (if due then some txs else rest)
Settled-later before marked after txs true none h m s = (h refl, s ∙ m)
Settled-later before marked after txs true (some _) h m s = absurd (ground arith)
Settled-later before marked after txs false none h m s = s ∙ m
Settled-later before marked after txs false (some _) h m s = (sym m ∙ s.0, s.1)

drain_loop-entries :
    (fuel : ℕ) (q : PendingQueue) (r : ℕ)
    → let (q', out) = drain_loop fuel q in
      Settled (Map.get r q.entries) (Map.get r q'.entries) (out_txs r out)
unfolding drain_loop mark
drain_loop-entries zero q r = refl
drain_loop-entries (suc fuel) q r = elim (Option-cases (head_txs q)) [
  | inl e ↦ rw (e, drain_loop) refl
  | inr (txs, e) ↦
      rw (e, drain_loop)
        (Settled-later (Map.get r q.entries) _ _ txs (r == q.next_dispatch_round) _
          (λ due. ground (arith, queued_entry (Map.get r q.entries) txs))
          (get-insert r q.next_dispatch_round (record { txs = txs; status = dispatched }) q.entries)
          (drain_loop-entries fuel (mark q txs) r))
]

-- Of every round, a call either does not hand the round out and leaves its entry as it was, or
-- hands it out with the transactions of its queued entry, which it turns into a dispatched one.
pub drain_dispatchable-entries :
    (q : PendingQueue) (r : ℕ)
    → let (q', out) = drain_dispatchable q in
      Settled (Map.get r q.entries) (Map.get r q'.entries) (out_txs r out)
unfolding drain_dispatchable
drain_dispatchable-entries q r = drain_loop-entries _ q r
