-- ===== src/Consensus/UniversalCommitter/Ends.antt =====
-- A call to decide ends.
use dual_optimistic_l.Base.{
  ℕ, zero, suc, ◌+◌, ◌-◌, ◌≡◌, refl, Bool, true, false, Option, none, some, List, [], ◌∷◌,
  if◌then◌else◌, if_intro,
}
use dual_optimistic_l.Consensus.BaseCommitter.{BaseCommitterOptions, elect_leader}
use dual_optimistic_l.Consensus.BaseCommitter.Decide.{try_direct_decide, try_indirect_decide}
use dual_optimistic_l.Consensus.BaseCommitter.Decide.Ends.{
  try_direct_decide-Ended, try_indirect_decide-Ended,
}
use dual_optimistic_l.Consensus.BaseCommitter.Support.{or_panic}
use dual_optimistic_l.Consensus.BaseCommitter.Support.Ends.{or_panic-Ended}
use dual_optimistic_l.Consensus.Commit.{LeaderStatus, Decision, is_decided}
use dual_optimistic_l.Consensus.Committee.{Committee}
use dual_optimistic_l.Consensus.DagState.{DagState}
use dual_optimistic_l.Consensus.DagState.Ancestors.Ascending.{IsDescending}
use dual_optimistic_l.Consensus.DagState.Outcome.{
  Outcome, done, ◌>>=◌, has_ended, Ended, >>=-has_ended,
}
use dual_optimistic_l.Consensus.Types.{Slot, slot_eqb}
use dual_optimistic_l.Consensus.UniversalCommitter.{
  Leaders, statuses, decide_slot, visit_slot, visit_round, visit_rounds, decided_prefix, reverse,
  try_decide,
}

decide_slot-Ended :
    (c : Committee) (s : DagState) (o : BaseCommitterOptions) (p : Slot) (xs : Leaders)
    → IsDescending s
    → Ended (decide_slot c s o p xs)
unfolding decide_slot
decide_slot-Ended c s o p xs k =
    let second : Outcome Leaders =
      try_indirect_decide c o s p (statuses xs) >>= λ st. done ((st, Decision.indirect) ∷ xs) in
    >>=-has_ended (try_direct_decide c o s p)
      (λ (st : LeaderStatus). if is_decided st then done ((st, Decision.direct) ∷ xs) else second)
      (try_direct_decide-Ended c o s p k)
      (λ st _.
        if_intro Ended (is_decided st) (done ((st, Decision.direct) ∷ xs)) second (λ _. refl)
          (λ _.
            >>=-has_ended (try_indirect_decide c o s p (statuses xs))
              (λ st. done ((st, Decision.indirect) ∷ xs))
              (try_indirect_decide-Ended c o s p (statuses xs) k) (λ _ _. refl)))

visit_slot-Ended :
    (c : Committee) (s : DagState) (last_decided : Slot) (o : BaseCommitterOptions)
    (slot : Option Slot) (xs : Leaders)
    → IsDescending s
    → Ended (visit_slot c s last_decided o slot xs)
unfolding visit_slot
visit_slot-Ended c s last_decided o none xs k = refl
visit_slot-Ended c s last_decided o (some p) xs k =
    let second : Outcome (Bool × Leaders) = decide_slot c s o p xs >>= λ more. done (false, more) in
    if_intro Ended (slot_eqb p last_decided) (done (true, xs)) second (λ _. refl)
      (λ _.
        >>=-has_ended (decide_slot c s o p xs) (λ more. done (false, more))
          (decide_slot-Ended c s o p xs k) (λ _ _. refl))

visit_round-Ended :
    (c : Committee) (s : DagState) (last_decided : Slot) (round : ℕ)
    (os : List BaseCommitterOptions) (xs : Leaders)
    → IsDescending s
    → Ended (visit_round c s last_decided round os xs)
unfolding visit_round
visit_round-Ended c s last_decided round [] xs k = refl
visit_round-Ended c s last_decided round (o ∷ rest) xs k =
    let after : Bool × Leaders → Outcome (Bool × Leaders) =
      λ r. elim r.0 [ true ↦ done r | false ↦ visit_round c s last_decided round rest r.1 ] in
    >>=-has_ended (or_panic (elect_leader c o round))
      (λ (slot : Option Slot). visit_slot c s last_decided o slot xs >>= after)
      (or_panic-Ended (elect_leader c o round))
      (λ slot _.
        >>=-has_ended (visit_slot c s last_decided o slot xs) after
          (visit_slot-Ended c s last_decided o slot xs k)
          (λ r _.
            elim r.0
              as (λ b. Ended (elim b as (λ _. Outcome (Bool × Leaders)) [
                | true ↦ done r
                | false ↦ visit_round c s last_decided round rest r.1
              ])) [ true ↦ refl | false ↦ visit_round-Ended c s last_decided round rest r.1 k ]))

visit_rounds-Ended :
    (c : Committee) (s : DagState) (last_decided : Slot) (os : List BaseCommitterOptions) (n : ℕ)
    (xs : Leaders)
    → IsDescending s
    → Ended (visit_rounds c s last_decided os n xs)
unfolding visit_rounds
visit_rounds-Ended c s last_decided os zero xs k = refl
visit_rounds-Ended c s last_decided os (suc n) xs k =
    >>=-has_ended (visit_round c s last_decided (last_decided.round + n) os xs)
      (λ (r : Bool × Leaders). elim r.0 [
        | true ↦ done r.1
        | false ↦ visit_rounds c s last_decided os n r.1
      ])
      (visit_round-Ended c s last_decided (last_decided.round + n) os xs k)
      (λ r _.
        elim r.0
          as (λ b. Ended (elim b as (λ _. Outcome Leaders) [
            | true ↦ done r.1
            | false ↦ visit_rounds c s last_decided os n r.1
          ])) [ true ↦ refl | false ↦ visit_rounds-Ended c s last_decided os n r.1 k ])

-- Where every block of the DAG stands under its own reference and names only ancestors of lower rounds:
-- the call ends, with a decision or by a panic, whatever the committee, the committers and the last
-- decided slot.
pub try_decide-ends :
    (c : Committee) (os : List BaseCommitterOptions) (s : DagState) (last_decided : Slot)
    → IsDescending s
    → has_ended (try_decide c os s last_decided) ≡ true
unfolding try_decide
try_decide-ends c os s last_decided k =
    let n : ℕ = suc (s.highest_accepted_round - 2) - last_decided.round in
    >>=-has_ended (visit_rounds c s last_decided (reverse os) n [])
      (λ (xs : Leaders). done (decided_prefix xs))
      (visit_rounds-Ended c s last_decided (reverse os) n [] k) (λ _ _. refl)
