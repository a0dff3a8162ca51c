-- ===== src/Consensus/UniversalCommitter/Steps.antt =====
-- How one round of the decision loop goes.
use mathlib.Core.Path.{subst}
use dual_optimistic_l.Base.{
  ℕ, ◌≡◌, ◌⊎◌, sym, ap, ◌∙◌, inl, inr, Bool, true, false, Option, none, some, [], ◌∷◌,
  if◌then◌else◌, arith, Bool-cases,
}
use dual_optimistic_l.Consensus.BaseCommitter.{BaseCommitterOptions, default, elect_leader}
use dual_optimistic_l.Consensus.BaseCommitter.Decide.{try_direct_decide, try_indirect_decide}
use dual_optimistic_l.Consensus.BaseCommitter.Decide.Slots.{
  status_slot, try_direct_decide-slot, try_indirect_decide-slot,
}
use dual_optimistic_l.Consensus.BaseCommitter.Support.{or_panic}
use dual_optimistic_l.Consensus.Commit.{LeaderStatus, Decision, is_decided}
use dual_optimistic_l.Consensus.Committee.{Committee}
use dual_optimistic_l.Consensus.DagState.{DagState}
use dual_optimistic_l.Consensus.DagState.Outcome.{Outcome, done, ◌>>=◌, >>=-eq-done}
use dual_optimistic_l.Consensus.DagState.Store.{IsKeyed}
use dual_optimistic_l.Consensus.Types.{Slot, slot_eqb}
use dual_optimistic_l.Consensus.UniversalCommitter.{
  Leaders, statuses, decide_slot, visit_slot, visit_round,
}

pub leaders_inv : (x y : Leaders) → ◌≡◌ {A = Outcome Leaders} (done x) (done y) → y ≡ x
leaders_inv x y e = ground arith

-- A slot that is decided on adds one status, of that slot.
decide_slot-adds :
    (c : Committee) (s : DagState) (o : BaseCommitterOptions) (p : Slot) (xs : Leaders)
    {out : Leaders}
    → IsKeyed s
    → decide_slot c s o p xs ≡ done out
    → (st : LeaderStatus) × (d : Decision) × (out ≡ (st, d) ∷ xs) × (status_slot st ≡ p)
unfolding decide_slot
decide_slot-adds c s o p xs {out} k e =
    let (st, e1, e2) =
      >>=-eq-done (try_direct_decide c o s p)
        (λ (st : LeaderStatus).
          if is_decided st
          then done ((st, Decision.direct) ∷ xs)
          else (try_indirect_decide c o s p (statuses xs) >>= λ st.
              done ((st, Decision.indirect) ∷ xs)))
        e in
    split st (is_decided st) e1 e2
  where
    split :
        (st : LeaderStatus) (decided : Bool)
        → try_direct_decide c o s p ≡ done st
        → (if decided
            then done ((st, Decision.direct) ∷ xs)
            else (try_indirect_decide c o s p (statuses xs) >>= λ st.
                done ((st, Decision.indirect) ∷ xs)))
          ≡ done out
        → (st : LeaderStatus) × (d : Decision) × (out ≡ (st, d) ∷ xs) × (status_slot st ≡ p)
    split st true e1 e2 =
        (st, Decision.direct, leaders_inv _ out e2, try_direct_decide-slot c o s p k e1)
    split st false e1 e2 =
        let (st', e3, e4) =
          >>=-eq-done (try_indirect_decide c o s p (statuses xs))
            (λ (st : LeaderStatus). done ((st, Decision.indirect) ∷ xs)) e2 in
        (
          st',
          Decision.indirect,
          leaders_inv _ out e4,
          try_indirect_decide-slot c o s p (statuses xs) k e3,
        )

pub elect_leader-round :
    (c : Committee) (o : BaseCommitterOptions) (round : ℕ) {p : Slot}
    → elect_leader c o round ≡ some (some p)
    → p.round ≡ round
unfolding elect_leader
elect_leader-round c o round e = ground arith

-- How a round with one committer goes: it is left at the last decided slot, has no leader, or adds
-- the status of its leader.
pub data RoundStep (c : Committee) (last_decided : Slot) (round : ℕ) (xs : Leaders)
    : Bool × Leaders → Type 0 where
  stopped : RoundStep c last_decided round xs (true, xs)
  empty : elect_leader c default round ≡ some none → RoundStep c last_decided round xs (false, xs)
  adds :
      (st : LeaderStatus) (d : Decision)
      → elect_leader c default round ≡ some (some (status_slot st))
      → slot_eqb (status_slot st) last_decided ≡ false
      → RoundStep c last_decided round xs (false, (st, d) ∷ xs)

pair_inv : (x y : Bool × Leaders) → ◌≡◌ {A = Outcome (Bool × Leaders)} (done x) (done y) → y ≡ x
pair_inv x y e = ground arith

or_panic_inv : {A : Type 0} (o : Option A) (a : A) → or_panic o ≡ done a → o ≡ some a
or_panic_inv none a e = absurd (ground arith)
or_panic_inv (some b) a e = ground arith

visit_slot-step :
    (c : Committee) (s : DagState) (last_decided : Slot) (round : ℕ) (slot : Option Slot)
    (xs : Leaders) {r : Bool × Leaders}
    → IsKeyed s
    → elect_leader c default round ≡ some slot
    → visit_slot c s last_decided default slot xs ≡ done r
    → RoundStep c last_decided round xs r
unfolding visit_slot
visit_slot-step c s last_decided round none xs {r} k e h =
    subst (RoundStep c last_decided round xs) (sym (pair_inv (false, xs) r h)) (empty e)
visit_slot-step c s last_decided round (some p) xs {r} k e h =
    split (Bool-cases (slot_eqb p last_decided))
  where
    split :
        (slot_eqb p last_decided ≡ true) ⊎ (slot_eqb p last_decided ≡ false)
        → RoundStep c last_decided round xs r
    split (inl same) =
        subst (RoundStep c last_decided round xs)
          (sym (pair_inv (true, xs) r (rw (same, visit_slot) at h))) stopped
    split (inr other) =
        let h1 : (decide_slot c s default p xs >>= λ more. done (false, more)) ≡ done r =
          rw (other, visit_slot) at h in
        let (out, e1, e2) =
          >>=-eq-done (decide_slot c s default p xs) (λ (more : Leaders). done (false, more)) h1 in
        let (st, d, added, at_p) = decide_slot-adds c s default p xs k e1 in
        subst (RoundStep c last_decided round xs)
          (sym (pair_inv (false, out) r e2 ∙ ap (λ (x : Leaders). (false, x)) added))
          (adds st d (subst (λ q. elect_leader c default round ≡ some (some q)) (sym at_p) e)
            (subst (λ q. slot_eqb q last_decided ≡ false) (sym at_p) other))

pub visit_round-step :
    (c : Committee) (s : DagState) (last_decided : Slot) (round : ℕ) (xs : Leaders)
    {r : Bool × Leaders}
    → IsKeyed s
    → visit_round c s last_decided round (default ∷ []) xs ≡ done r
    → RoundStep c last_decided round xs r
unfolding visit_round
visit_round-step c s last_decided round xs {r} k h =
    let after : Bool × Leaders → Outcome (Bool × Leaders) =
      λ r. elim r.0 [ true ↦ done r | false ↦ done (false, r.1) ] in
    let (slot, e1, e2) =
      >>=-eq-done (or_panic (elect_leader c default round))
        (λ (slot : Option Slot). visit_slot c s last_decided default slot xs >>= after) h in
    let (t, e3, e4) = >>=-eq-done (visit_slot c s last_decided default slot xs) after e2 in
    subst (RoundStep c last_decided round xs) (sym (same t e4))
      (visit_slot-step c s last_decided round slot xs k (or_panic_inv _ slot e1) e3)
  where
    same :
        (t : Bool × Leaders)
        → ◌≡◌ {A = Outcome (Bool × Leaders)}
            (elim t.0 [ true ↦ done t | false ↦ done (false, t.1) ])
            (done r)
        → r ≡ t
    same (true, ys) e = pair_inv (true, ys) r e
    same (false, ys) e = pair_inv (false, ys) r e
