-- ===== src/Consensus/BlockManager/Invariant.antt =====
-- Every call of the block manager keeps the lists of waiting blocks and the DAG in order.
use mathlib.Core.Path.{subst}
use dual_optimistic_l.Base.{
  ◌≡◌, refl, sym, ◌∙◌, inl, inr, Bool, true, false, Option, none, some, List, [], ◌∷◌, Bool-cases,
  Option-cases,
}
use dual_optimistic_l.Base.Set
use dual_optimistic_l.Base.Set.{contains-remove}
use dual_optimistic_l.Consensus.BlockManager.{BlockManager, drop_suspended}
use dual_optimistic_l.Consensus.BlockManager.Accept.{
  Store, Answer, nothing, try_accept_one_committed_block, accept_one, accept_one_committed,
  accept_each, sort_by_round, try_accept_blocks_internal,
}
use dual_optimistic_l.Consensus.BlockManager.Waits.{needs, waits, IsRegistered}
use dual_optimistic_l.Consensus.Committee.{Committee}
use dual_optimistic_l.Consensus.DagState
use dual_optimistic_l.Consensus.DagState.{DagState, contains_block}
use dual_optimistic_l.Consensus.DagState.Store.{IsKeyed}
use dual_optimistic_l.Consensus.Types.{BlockRef, VerifiedBlock, reference, ref_key}
use dual_optimistic_l.Consensus.BlockManager.Drop.{
  IsKept, answer_inv, no_answer, unchanged, KeepsOne, accept_one-IsKept,
}
use dual_optimistic_l.Consensus.BlockManager.Growth.{
  drop_suspended-IsRegistered, accept_blocks-IsGrown,
}

abbrev without_missing : BlockRef → BlockManager → BlockManager
without_missing r m = record m { missing_blocks = Set.remove r m.missing_blocks }

without_missing-IsRegistered :
    (r : BlockRef) (m : BlockManager) → IsRegistered m → IsRegistered (without_missing r m)
unfolding needs waits
without_missing-IsRegistered r m g x a h = g x a h

committed_known :
    (c : Committee) (w : Store) (b : VerifiedBlock)
    → contains_block w.dag_state (reference b) ≡ true
    → accept_one_committed c w b ≡ some (w, nothing)
unfolding accept_one_committed try_accept_one_committed_block
committed_known c w b e = rw (e, accept_one_committed, try_accept_one_committed_block)

committed_new :
    (c : Committee) (w : Store) (b : VerifiedBlock)
    → contains_block w.dag_state (reference b) ≡ false
    → accept_one_committed c w b ≡ elim (DagState.accept_blocks c w.dag_state (b ∷ [])) [
      | none ↦ none
      | some t ↦ some (
        record {
          dag_state = t;
          manager = drop_suspended (reference b) (without_missing (reference b) w.manager);
        },
        record { accepted_blocks = b ∷ []; missing = [] },
      )
    ]
unfolding accept_one_committed try_accept_one_committed_block
committed_new c w b e =
    rw (e, accept_one_committed, try_accept_one_committed_block)
      (both (DagState.accept_blocks c w.dag_state (b ∷ [])))
  where
    returned : Option DagState → Option (Store × List VerifiedBlock)
    returned o = elim o [
      | none ↦ none
      | some t ↦ some (
        record {
          dag_state = t;
          manager = drop_suspended (reference b) (without_missing (reference b) w.manager);
        },
        b ∷ [],
      )
    ]

    both :
        (o : Option DagState)
        → ◌≡◌ {A = Option (Store × Answer)}
            (elim (returned o) [
              | none ↦ none
              | some r ↦ some (r.0, record { accepted_blocks = r.1; missing = [] })
            ])
            (elim o [
              | none ↦ none
              | some t ↦ some (
                record {
                  dag_state = t;
                  manager = drop_suspended (reference b) (without_missing (reference b) w.manager);
                },
                record { accepted_blocks = b ∷ []; missing = [] },
              )
            ])
    both none = refl
    both (some t) = refl

accept_one_committed-IsKept : (c : Committee) → KeepsOne (accept_one_committed c)
accept_one_committed-IsKept c w b w' a g k e =
    elim (Bool-cases (contains_block w.dag_state (reference b))) [
      | inl known ↦
          subst (IsKept w.dag_state)
            (answer_inv w w' nothing a (sym (committed_known c w b known) ∙ e)).0
            (g, unchanged w.dag_state k)
      | inr fresh ↦
          entered (DagState.accept_blocks c w.dag_state (b ∷ [])) refl
            (sym (committed_new c w b fresh) ∙ e)
    ]
  where
    entered :
        (o : Option DagState)
        → DagState.accept_blocks c w.dag_state (b ∷ []) ≡ o
        → ◌≡◌ {A = Option (Store × Answer)}
            (elim o [
              | none ↦ none
              | some t ↦ some (
                record {
                  dag_state = t;
                  manager = drop_suspended (reference b) (without_missing (reference b) w.manager);
                },
                record { accepted_blocks = b ∷ []; missing = [] },
              )
            ])
            (some (w', a))
        → IsKept w.dag_state w'
    entered none e1 h = absurd (no_answer w' a h)
    entered (some t) e1 h = subst (IsKept w.dag_state) (answer_inv _ w' _ a h).0 (
      drop_suspended-IsRegistered (reference b) (without_missing (reference b) w.manager)
          (without_missing-IsRegistered (reference b) w.manager g),
      accept_blocks-IsGrown c w.dag_state (b ∷ []) k e1,
    )

accept_each-IsKept :
    (one : Store → VerifiedBlock → Option (Store × Answer)) (w : Store) (bs : List VerifiedBlock)
    (out : Answer) {w' : Store} {a : Answer}
    → KeepsOne one
    → IsRegistered w.manager
    → IsKeyed w.dag_state
    → accept_each one w bs out ≡ some (w', a)
    → IsKept w.dag_state w'
unfolding accept_each
accept_each-IsKept one w [] out {w'} {a} f g k e =
    subst (IsKept w.dag_state) (answer_inv w w' out a e).0 (g, unchanged w.dag_state k)
accept_each-IsKept one w (b ∷ rest) out {w'} {a} f g k e = elim (Option-cases (one w b)) [
  | inl stopped ↦ absurd (no_answer w' a (rw (stopped, accept_each) at e))
  | inr ((u, part), e1) ↦
      let (g1, grown) = f w b u part g k e1 in
      let (g2, more) =
        accept_each-IsKept one u rest _ f g1 grown.keyed (rw (e1, accept_each) at e) in
      (
        g2,
        record {
          keyed = more.keyed;
          committed = more.committed ∙ grown.committed;
          index = more.index ∙ grown.index;
        },
      )
]

-- Where every suspended block is on the lists of what it misses and every block of the DAG stands
-- under its own reference, both hold again whenever a call to accept blocks, committed ones or not,
-- returns, and the call changes neither what is committed nor the last commit index.
pub try_accept_blocks_internal-IsKept :
    (c : Committee) (w : Store) (bs : List VerifiedBlock) (committed : Bool) {w' : Store}
    {a : Answer}
    → IsRegistered w.manager
    → IsKeyed w.dag_state
    → try_accept_blocks_internal c w bs committed ≡ some (w', a)
    → IsKept w.dag_state w'
unfolding try_accept_blocks_internal
try_accept_blocks_internal-IsKept c w bs true g k e =
    accept_each-IsKept (accept_one_committed c) w (sort_by_round bs) nothing
      (accept_one_committed-IsKept c) g k e
try_accept_blocks_internal-IsKept c w bs false g k e =
    accept_each-IsKept (accept_one c) w (sort_by_round bs) nothing (accept_one-IsKept c) g k e
