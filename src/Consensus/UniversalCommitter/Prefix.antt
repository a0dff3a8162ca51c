-- ===== src/Consensus/UniversalCommitter/Prefix.antt =====
-- Runs of leaders in ascending rounds, and the prefix that is decided.
use dual_optimistic_l.Base.{ℕ, suc, ◌≤◌, ◌≡◌, some, List, [], ◌∷◌, ◌==◌, arith, if_intro}
use dual_optimistic_l.Consensus.BaseCommitter.{default, elect_leader}
use dual_optimistic_l.Consensus.BaseCommitter.Decide.Slots.{status_slot}
use dual_optimistic_l.Consensus.Commit.{
  LeaderStatus, DecidedLeader, status_round, into_decided_leader, decided_slot,
}
use dual_optimistic_l.Consensus.Committee.{Committee}
use dual_optimistic_l.Consensus.Types.{Slot, genesis_round}
use dual_optimistic_l.Consensus.UniversalCommitter.{Leaders, is_direct, cons_some, decided_prefix}

-- The rounds ascend from `low` to at most `high`, and each slot is that of the round's elected leader.
abbrev pub IsElected : Committee → Slot → Type 0
IsElected c p = elect_leader c default p.round ≡ some (some p)

abbrev pub IsRun : Committee → ℕ → ℕ → Leaders → Type 0
IsRun c low high [] = Unit
IsRun c low high ((st, d) ∷ rest) =
    (low ≤ (status_slot st).round)
    × ((status_slot st).round ≤ high)
    × IsElected c (status_slot st)
    × IsRun c (suc (status_slot st).round) high rest

abbrev pub AreOrdered : Committee → ℕ → ℕ → List DecidedLeader → Type 0
AreOrdered c low high [] = Unit
AreOrdered c low high (d ∷ rest) =
    (low ≤ (decided_slot d).round)
    × ((decided_slot d).round ≤ high)
    × IsElected c (decided_slot d)
    × AreOrdered c (suc (decided_slot d).round) high rest

pub IsRun-weaken :
    (c : Committee) (low low' high : ℕ) (xs : Leaders)
    → low' ≤ low
    → IsRun c low high xs
    → IsRun c low' high xs
IsRun-weaken c low low' high [] l h = tt
IsRun-weaken c low low' high ((st, d) ∷ rest) l (h, u, e, more) = (omega (arith, h), u, e, more)

AreOrdered-weaken :
    (c : Committee) (low low' high : ℕ) (xs : List DecidedLeader)
    → low' ≤ low
    → AreOrdered c low high xs
    → AreOrdered c low' high xs
AreOrdered-weaken c low low' high [] l h = tt
AreOrdered-weaken c low low' high (d ∷ rest) l (h, u, e, more) = (omega (arith, h), u, e, more)

-- The decided prefix of a run is in order.
pub decided_prefix-AreOrdered :
    (c : Committee) (low high : ℕ) (xs : Leaders)
    → IsRun c low high xs
    → AreOrdered c low high (decided_prefix xs)
unfolding decided_prefix status_round into_decided_leader decided_slot
decided_prefix-AreOrdered c low high [] h = tt
decided_prefix-AreOrdered c low high ((st, d) ∷ rest) (l, u, e, more) =
    let ih = decided_prefix-AreOrdered c (suc (status_slot st).round) high rest more in
    if_intro (AreOrdered c low high) (status_round st == genesis_round) (decided_prefix rest)
      (cons_some (into_decided_leader st (is_direct d)) (decided_prefix rest))
      (λ _.
        AreOrdered-weaken c (suc (status_slot st).round) low high (decided_prefix rest)
          (omega arith) ih)
      (λ _. first st l u e ih)
  where
    first :
        (st : LeaderStatus)
        → low ≤ (status_slot st).round
        → (status_slot st).round ≤ high
        → IsElected c (status_slot st)
        → AreOrdered c (suc (status_slot st).round) high (decided_prefix rest)
        → AreOrdered c low high
            (cons_some (into_decided_leader st (is_direct d)) (decided_prefix rest))
    first (LeaderStatus.commit b) l u e ih = (l, u, e, ih)
    first (LeaderStatus.skip p) l u e ih = (l, u, e, ih)
    first (LeaderStatus.undecided p) l u e ih = tt
