-- ===== src/Consensus/UniversalCommitter/Order.antt =====
-- The order of what one call decides.
use mathlib.Core.Path.{subst}
use dual_optimistic_l.Base.{
  ℕ, zero, suc, ◌+◌, ◌-◌, ◌≤◌, ◌<◌, ◌≡◌, refl, sym, ap, ◌∙◌, Bool, true, false, Option, some, List,
  [], ◌∷◌, arith,
}
use dual_optimistic_l.Consensus.BaseCommitter.{default, elect_leader}
use dual_optimistic_l.Consensus.BaseCommitter.Decide.Slots.{status_slot}
use dual_optimistic_l.Consensus.Commit.{DecidedLeader}
use dual_optimistic_l.Consensus.Committee.{Committee}
use dual_optimistic_l.Consensus.DagState.{DagState}
use dual_optimistic_l.Consensus.DagState.Outcome.{Outcome, done, ◌>>=◌, >>=-eq-done}
use dual_optimistic_l.Consensus.DagState.Store.{IsKeyed}
use dual_optimistic_l.Consensus.Types.{Slot, slot_eqb}
use dual_optimistic_l.Consensus.UniversalCommitter.{
  Leaders, visit_round, visit_rounds, decided_prefix, reverse, try_decide, new_builder,
  leader_offsets, build,
}
use dual_optimistic_l.Consensus.UniversalCommitter.Prefix.{
  IsElected, IsRun, AreOrdered, IsRun-weaken, decided_prefix-AreOrdered,
}
use dual_optimistic_l.Consensus.UniversalCommitter.Steps.{
  RoundStep, stopped, empty, adds, leaders_inv, elect_leader-round, visit_round-step,
}

-- The elected leader of the last decided round is not visited, so the rounds stay above it.
above_last :
    (c : Committee) (last_decided : Slot) (n : ℕ) (p : Slot)
    → IsElected c last_decided
    → elect_leader c default (last_decided.round + n) ≡ some (some p)
    → slot_eqb p last_decided ≡ false
    → 0 < n
above_last c last_decided zero p l e other =
    let e0 : elect_leader c default last_decided.round ≡ some (some p) =
      ap (elect_leader c default) (omega arith) ∙ e in
    let same : p ≡ last_decided = slot_inv p last_decided (sym e0 ∙ l) in absurd (clash same)
  where
    slot_inv : (p q : Slot) → ◌≡◌ {A = Option (Option Slot)} (some (some p)) (some (some q)) → p ≡ q
    slot_inv p q e = ground arith

    clash : p ≡ last_decided → ⊥
    clash same = ground arith
above_last c last_decided (suc n) p l e other = omega arith

visit_rounds-IsRun :
    (c : Committee) (s : DagState) (last_decided : Slot) (n high : ℕ) (xs : Leaders) {out : Leaders}
    → IsKeyed s
    → IsElected c last_decided
    → n ≤ suc high - last_decided.round
    → IsRun c (last_decided.round + suc (n - 1)) high xs
    → visit_rounds c s last_decided (default ∷ []) n xs ≡ done out
    → IsRun c (suc last_decided.round) high out
unfolding visit_rounds
visit_rounds-IsRun c s last_decided zero high xs {out} k l b h e =
    subst (IsRun c (suc last_decided.round) high) (sym (leaders_inv xs out e))
      (IsRun-weaken c _ _ high xs (omega arith) h)
visit_rounds-IsRun c s last_decided (suc n) high xs {out} k l b h e =
    let next : Bool × Leaders → Outcome Leaders = λ r. elim r.0 [
      | true ↦ done r.1
      | false ↦ visit_rounds c s last_decided (default ∷ []) n r.1
    ] in
    let (r, e1, e2) =
      >>=-eq-done (visit_round c s last_decided (last_decided.round + n) (default ∷ []) xs) next
        e in
    split r (visit_round-step c s last_decided (last_decided.round + n) xs k e1) e2
      (λ ys m f. visit_rounds-IsRun c s last_decided n high ys k l (omega arith) m f)
  where
    low : ℕ
    low = last_decided.round + suc (n - 1)

    split :
        (r : Bool × Leaders)
        → RoundStep c last_decided (last_decided.round + n) xs r
        → ◌≡◌ {A = Outcome Leaders}
            (elim r.0 [
              | true ↦ done r.1
              | false ↦ visit_rounds c s last_decided (default ∷ []) n r.1
            ])
            (done out)
        → ((ys : Leaders)
            → IsRun c low high ys
            → visit_rounds c s last_decided (default ∷ []) n ys ≡ done out
            → IsRun c (suc last_decided.round) high out)
        → IsRun c (suc last_decided.round) high out
    split _ stopped e2 go =
        subst (IsRun c (suc last_decided.round) high) (sym (leaders_inv xs out e2))
          (IsRun-weaken c _ _ high xs (omega arith) h)
    split _ (empty none_) e2 go = go xs (IsRun-weaken c _ _ high xs (omega arith) h) e2
    split _ (adds st d elected other) e2 go =
        let at_round = elect_leader-round c default (last_decided.round + n) elected in
        let above = above_last c last_decided n (status_slot st) l elected other in
        go ((st, d) ∷ xs)
          (
            omega (arith, at_round, above),
            omega (arith, at_round),
            rw at_round elected,
            IsRun-weaken c _ _ high xs (omega (arith, at_round, above)) h,
          )
          e2

one_committer : reverse (build new_builder) ≡ default ∷ []
unfolding reverse build leader_offsets
one_committer = refl

decided_inv :
    (x y : List DecidedLeader) → ◌≡◌ {A = Outcome (List DecidedLeader)} (done x) (done y) → y ≡ x
decided_inv x y e = ground arith

-- With the builder's default committer, where every block of the DAG stands under its own reference
-- and the last decided slot is that of its round's elected leader, and whenever the call returns: the
-- slots it decides are those of elected leaders, in strictly ascending rounds, all above the last
-- decided round and at most two below the highest accepted round.
pub try_decide-AreOrdered :
    (c : Committee) (s : DagState) (last_decided : Slot) {ds : List DecidedLeader}
    → IsKeyed s
    → IsElected c last_decided
    → try_decide c (build new_builder) s last_decided ≡ done ds
    → AreOrdered c (suc last_decided.round) (s.highest_accepted_round - 2) ds
unfolding try_decide
try_decide-AreOrdered c s last_decided {ds} k l e =
    let n : ℕ = suc (s.highest_accepted_round - 2) - last_decided.round in
    let e1 : (visit_rounds c s last_decided (default ∷ []) n [] >>= λ xs. done (decided_prefix xs))
        ≡ done ds =
      rw one_committer at e in
    let (xs, e2, e3) =
      >>=-eq-done (visit_rounds c s last_decided (default ∷ []) n [])
        (λ (xs : Leaders). done (decided_prefix xs)) e1 in
    subst (AreOrdered c (suc last_decided.round) (s.highest_accepted_round - 2))
      (sym (decided_inv (decided_prefix xs) ds e3))
      (decided_prefix-AreOrdered c _ _ xs
        (visit_rounds-IsRun c s last_decided n _ [] k l (omega arith) tt e2))
