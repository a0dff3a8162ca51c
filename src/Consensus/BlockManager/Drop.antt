-- ===== src/Consensus/BlockManager/Drop.antt =====
-- What the calls for one block leave of the lists of waiting blocks and of the DAG.
use mathlib.Core.Path.{subst}
use dual_optimistic_l.Base.{
  ◌≡◌, refl, sym, ◌∙◌, inl, inr, Option, none, some, [], ◌∷◌, arith, Option-cases,
}
use dual_optimistic_l.Consensus.BlockManager.{
  BlockManager, TryAcceptResult, try_accept_one_block, try_unsuspend_children_blocks,
}
use dual_optimistic_l.Consensus.BlockManager.Accept.{
  Store, Answer, finish_accept, after_try, accept_one,
}
use dual_optimistic_l.Consensus.BlockManager.Release.{try_unsuspend_children_blocks_lem}
use dual_optimistic_l.Consensus.BlockManager.Waits.{IsRegistered, try_accept_one_block-IsRegistered}
use dual_optimistic_l.Consensus.Committee.{Committee}
use dual_optimistic_l.Consensus.DagState
use dual_optimistic_l.Consensus.DagState.{DagState, contains_block}
use dual_optimistic_l.Consensus.DagState.Store.{IsKeyed}
use dual_optimistic_l.Consensus.Types.{VerifiedBlock, reference, ref_key}
use dual_optimistic_l.Consensus.BlockManager.Growth.{IsGrown, accept_blocks-IsGrown}

-- What every call makes of the state `s` of the DAG.
abbrev pub IsKept : DagState → Store → Type 0
IsKept s w = IsRegistered w.manager × IsGrown s w.dag_state

pub answer_inv :
    (w w' : Store) (a a' : Answer)
    → ◌≡◌ {A = Option (Store × Answer)} (some (w, a)) (some (w', a'))
    → (w ≡ w') × (a ≡ a')
answer_inv w w' a a' e = ground arith

pub no_answer : (w : Store) (a : Answer) → ¬ (◌≡◌ {A = Option (Store × Answer)} none (some (w, a)))
no_answer w a e = absurd (ground arith)

pub unchanged : (s : DagState) → IsKeyed s → IsGrown s s
unchanged s k = record { keyed = k; committed = refl; index = refl }

finished :
    (c : Committee) (s : DagState) (m : BlockManager) (b : VerifiedBlock) {t : DagState}
    → let r = try_unsuspend_children_blocks (reference b) m in
      DagState.accept_blocks c s (b ∷ r.1) ≡ some t
      → finish_accept c s m b
        ≡ some (
          record { dag_state = t; manager = r.0 },
          record { accepted_blocks = b ∷ r.1; missing = [] },
        )
unfolding finish_accept
finished c s m b e = rw (e, finish_accept)

unfinished :
    (c : Committee) (s : DagState) (m : BlockManager) (b : VerifiedBlock)
    → DagState.accept_blocks c s (b ∷ (try_unsuspend_children_blocks (reference b) m).1) ≡ none
    → finish_accept c s m b ≡ none
unfolding finish_accept
unfinished c s m b e = rw (e, finish_accept)

finish_accept-IsKept :
    (c : Committee) (s : DagState) (m : BlockManager) (b : VerifiedBlock) {w : Store} {a : Answer}
    → IsRegistered m
    → IsKeyed s
    → finish_accept c s m b ≡ some (w, a)
    → IsKept s w
finish_accept-IsKept c s m b {w} {a} g k e =
    let r = try_unsuspend_children_blocks (reference b) m in
    elim (Option-cases (DagState.accept_blocks c s (b ∷ r.1))) [
      | inl stopped ↦ absurd (no_answer w a (sym (unfinished c s m b stopped) ∙ e))
      | inr (t, e1) ↦
          let (same, _) = answer_inv _ w _ a (sym (finished c s m b e1) ∙ e) in
          subst (IsKept s) same (
            λ x y h. (try_unsuspend_children_blocks_lem (reference b) m x y g).2 h,
            accept_blocks-IsGrown c s (b ∷ r.1) k e1,
          )
    ]

after_try-IsKept :
    (c : Committee) (s : DagState) (m : BlockManager) (r : TryAcceptResult) {w : Store} {a : Answer}
    → IsRegistered m
    → IsKeyed s
    → after_try c s m r ≡ some (w, a)
    → IsKept s w
unfolding after_try
after_try-IsKept c s m (TryAcceptResult.accepted b) g k e = finish_accept-IsKept c s m b g k e
after_try-IsKept c s m (TryAcceptResult.suspended missing) {w} {a} g k e =
    subst (IsKept s) (answer_inv _ w _ a e).0 (g, unchanged s k)
after_try-IsKept c s m TryAcceptResult.processed {w} {a} g k e =
    subst (IsKept s) (answer_inv _ w _ a e).0 (g, unchanged s k)

-- What a call for one block is known to do.
abbrev pub KeepsOne : (Store → VerifiedBlock → Option (Store × Answer)) → Type 0
KeepsOne one =
    (w : Store) (b : VerifiedBlock) (w' : Store) (a : Answer)
    → IsRegistered w.manager
    → IsKeyed w.dag_state
    → one w b ≡ some (w', a)
    → IsKept w.dag_state w'

pub accept_one-IsKept : (c : Committee) → KeepsOne (accept_one c)
unfolding accept_one
accept_one-IsKept c w b w' a g k e =
    let r = try_accept_one_block w.dag_state w.manager b in
    after_try-IsKept c w.dag_state r.0 r.1
      (try_accept_one_block-IsRegistered w.dag_state w.manager b g) k e
