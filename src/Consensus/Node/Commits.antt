-- ===== src/Consensus/Node/Commits.antt =====
-- The hard commits of one call.
use mathlib.Core.Path.{subst}
use dual_optimistic_l.Base.{
  ℕ, suc, ◌-◌, ◌≤◌, ◌<◌, ◌≡◌, refl, sym, ap, ◌∙◌, List, [], ◌∷◌, ◌++◌, arith,
}
use dual_optimistic_l.Consensus.Commit.{CommittedSubDag, DecidedLeader, decided_slot}
use dual_optimistic_l.Consensus.Committee.{Committee}
use dual_optimistic_l.Consensus.DagState.{DagState, record_commit}
use dual_optimistic_l.Consensus.DagState.Outcome.{Outcome, done, ◌>>=◌, >>=-eq-done}
use dual_optimistic_l.Consensus.DagState.Store.{IsKeyed}
use dual_optimistic_l.Consensus.Linearizer.{commit_leader}
use dual_optimistic_l.Consensus.Linearizer.Counts.{fresh_first}
use dual_optimistic_l.Consensus.Linearizer.History.{commit_leader_inv, sub_dag}
use dual_optimistic_l.Consensus.Node.{
  Decided, apply_decided, apply_all, try_hard_commit, to_shared_subdag,
}
use dual_optimistic_l.Consensus.Node.Events.{
  InOrder, last_index, last_round, InOrder-append, last_index-append, last_round-append,
  last_round_mono,
}
use dual_optimistic_l.Consensus.Types.{VerifiedBlock, reference, slot_of}
use dual_optimistic_l.Consensus.UniversalCommitter.{new_builder, build, try_decide}
use dual_optimistic_l.Consensus.UniversalCommitter.Order.{try_decide-AreOrdered}
use dual_optimistic_l.Consensus.UniversalCommitter.Prefix.{IsElected, AreOrdered}
use dual_optimistic_l.Shared.{ConsensusEvent}

-- The slot of the last decided leader, and the blocks of the DAG, as they stand between calls.
pub record IsSettled (c : Committee) (w : Decided) : Type 0 where
  pub keyed : IsKeyed w.dag_state
  pub elected : IsElected c w.last_decided

-- What some events and the state after them say of the state before.
pub record Follows (c : Committee) (w w' : Decided) (es : List ConsensusEvent) : Type 0 where
  pub settled : IsSettled c w'
  pub ordered : InOrder w.dag_state.last_commit_index w.last_decided.round es
  pub index : w'.dag_state.last_commit_index ≡ last_index w.dag_state.last_commit_index es
  pub round : last_round w.last_decided.round es ≤ w'.last_decided.round

abbrev Run : Type 0
Run = Decided × List ConsensusEvent

run_inv : (x y : Run) → ◌≡◌ {A = Outcome Run} (done x) (done y) → x ≡ y
run_inv x y e = ground arith

pub Follows-both :
    (c : Committee) (w w1 w2 : Decided) (xs ys : List ConsensusEvent)
    → Follows c w w1 xs
    → Follows c w1 w2 ys
    → Follows c w w2 (xs ++ ys)
Follows-both c w w1 w2 xs ys f g =
    let i = w.dag_state.last_commit_index in
    let r = w.last_decided.round in
    record {
      settled = g.settled;
      ordered =
          InOrder-append i r w1.last_decided.round xs ys f.ordered f.round
            (subst (λ n. InOrder n w1.last_decided.round ys) f.index g.ordered);
      index = g.index ∙ ap (λ n. last_index n ys) f.index ∙ sym (last_index-append i xs ys);
      round = omega (
        arith,
        g.round,
        last_round_mono (last_round r xs) w1.last_decided.round ys f.round,
        last_round-append r xs ys,
      );
    }

module _ (sha3 : List ℕ → ℕ) where
  commit_leader-IsKeyed :
      (s : DagState) (leader : VerifiedBlock) {t : DagState} {d : CommittedSubDag}
      → IsKeyed s
      → commit_leader sha3 s leader ≡ done (t, d)
      → IsKeyed t
        × (t.last_commit_index ≡ d.commit_ref.index)
        × (d ≡ sub_dag sha3 s leader d.blocks)
  unfolding record_commit
  commit_leader-IsKeyed s leader {t} {d} k e =
      let (u, e1, ed, et) = commit_leader_inv sha3 s leader {t = t} {d = d} e in
      let (_, committed, out, _, eu, _) = fresh_first s leader {t = u} {blocks = d.blocks} e1 in
      let blocks : t.blocks ≡ s.blocks = ap (λ x. x.blocks) et ∙ ap (λ x. x.blocks) eu in
      let genesis : t.genesis ≡ s.genesis = ap (λ x. x.genesis) et ∙ ap (λ x. x.genesis) eu in
      (
        record {
          blocks = rw blocks k.blocks;
          genesis = rw genesis k.genesis;
          sorted = rw blocks k.sorted;
        },
        ap (λ x. x.last_commit_index) et,
        ed,
      )

  apply_decided-Follows :
      (c : Committee) (w : Decided) (d : DecidedLeader) {w' : Decided} {es : List ConsensusEvent}
      → IsKeyed w.dag_state
      → IsElected c (decided_slot d)
      → w.last_decided.round < (decided_slot d).round
      → apply_decided sha3 w d ≡ done (w', es)
      → Follows c w w' es × (w'.last_decided ≡ decided_slot d)
  unfolding apply_decided to_shared_subdag decided_slot
  apply_decided-Follows c w (DecidedLeader.skip p) {w'} {es} k l up e =
      subst (λ (x : Run). Follows c w x.0 x.1 × (x.0.last_decided ≡ p)) (run_inv _ (w', es) e)
        (
          record {
            settled = record { keyed = k; elected = l };
            ordered = tt;
            index = refl;
            round = omega arith;
          },
          refl,
        )
  apply_decided-Follows c w (DecidedLeader.commit b direct) {w'} {es} k l up e =
      let after : DagState × CommittedSubDag → Run = λ r. (
        record { dag_state = r.0; last_decided = slot_of (reference b) },
        ConsensusEvent.hard_commit (to_shared_subdag r.1) ∷ [],
      ) in
      let ((t, d), e1, e2) =
        >>=-eq-done (commit_leader sha3 w.dag_state b)
          (λ (r : DagState × CommittedSubDag). done (after r)) e in
      let (kt, index, ed) = commit_leader-IsKeyed w.dag_state b {t = t} {d = d} k e1 in
      let leads : d.leader.round ≡ b.round = ap (λ x. x.leader.round) ed in
      subst (λ (x : Run). Follows c w x.0 x.1 × (x.0.last_decided ≡ slot_of (reference b)))
        (run_inv (after (t, d)) (w', es) e2)
        (
          record {
            settled = record { keyed = kt; elected = l };
            ordered = (ap (λ x. x.commit_ref.index) ed, omega (arith, leads, up), tt);
            index = index;
            round = omega (arith, leads);
          },
          refl,
        )

  apply_all-Follows :
      (c : Committee) (w : Decided) (high : ℕ) (ds : List DecidedLeader) {w' : Decided}
      {es : List ConsensusEvent}
      → IsSettled c w
      → AreOrdered c (suc w.last_decided.round) high ds
      → apply_all sha3 w ds ≡ done (w', es)
      → Follows c w w' es
  unfolding apply_all
  apply_all-Follows c w high [] {w'} {es} k o e =
      subst (λ (x : Run). Follows c w x.0 x.1) (run_inv (w, []) (w', es) e)
        (record { settled = k; ordered = tt; index = refl; round = omega arith })
  apply_all-Follows c w high (d ∷ rest) {w'} {es} k (low, _, elected, more) e =
      let ((w1, xs), e1, e2) =
        >>=-eq-done (apply_decided sha3 w d)
          (λ (first : Run).
            apply_all sha3 first.0 rest >>= λ more. done (more.0, first.1 ++ more.1))
          e in
      let ((w2, ys), e3, e4) =
        >>=-eq-done (apply_all sha3 w1 rest) (λ (more : Run). done (more.0, xs ++ more.1)) e2 in
      let (f, at_d) = apply_decided-Follows c w d k.keyed elected (omega (arith, low)) e1 in
      let g =
        apply_all-Follows c w1 high rest f.settled
          (subst (λ p. AreOrdered c (suc p.round) high rest) (sym at_d) more) e3 in
      subst (λ (x : Run). Follows c w x.0 x.1) (run_inv (w2, xs ++ ys) (w', es) e4)
        (Follows-both c w w1 w2 xs ys f g)

  pub try_hard_commit-Follows :
      (c : Committee) (w : Decided) {w' : Decided} {es : List ConsensusEvent}
      → IsSettled c w
      → try_hard_commit sha3 c w ≡ done (w', es)
      → Follows c w w' es
  unfolding try_hard_commit
  try_hard_commit-Follows c w k e =
      let (ds, e1, e2) =
        >>=-eq-done (try_decide c (build new_builder) w.dag_state w.last_decided)
          (λ (ds : List DecidedLeader). apply_all sha3 w ds) e in
      apply_all-Follows c w (w.dag_state.highest_accepted_round - 2) ds k
        (try_decide-AreOrdered c w.dag_state w.last_decided k.keyed k.elected e1) e2
