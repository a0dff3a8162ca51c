-- ===== src/Consensus/Node/Order.antt =====
-- Whole histories of a node.
use mathlib.Core.Path.{subst}
use dual_optimistic_l.Base.{
  ℕ, ◌≤◌, ◌≡◌, refl, sym, ◌∙◌, false, Option, none, some, List, [], ◌∷◌, ◌++◌, arith,
}
use dual_optimistic_l.Consensus.BaseCommitter.Support.{or_panic}
use dual_optimistic_l.Consensus.BlockManager.Accept.{Store, Answer, try_accept_blocks}
use dual_optimistic_l.Consensus.BlockManager.Invariant.{try_accept_blocks_internal-IsKept}
use dual_optimistic_l.Consensus.BlockManager.Waits.{IsRegistered}
use dual_optimistic_l.Consensus.Committee.{Committee}
use dual_optimistic_l.Consensus.DagState.Outcome.{Outcome, done, ◌>>=◌, >>=-eq-done}
use dual_optimistic_l.Consensus.DagState.Store.{IsKeyed}
use dual_optimistic_l.Consensus.Node.{
  ConsensusNode, Decided, try_hard_commit, check_soft_commits, accept_blocks,
}
use dual_optimistic_l.Consensus.Node.Events.{
  InOrder, last_index, last_round, AreSoft, AreSoft-InOrder, check_soft_commits-AreSoft,
}
use dual_optimistic_l.Consensus.SoftCommit.{SoftCommitTracker}
use dual_optimistic_l.Consensus.Types.{VerifiedBlock}
use dual_optimistic_l.Consensus.UniversalCommitter.Prefix.{IsElected}
use dual_optimistic_l.Shared.{ConsensusEvent}
use dual_optimistic_l.Consensus.Node.Commits.{try_hard_commit-Follows, Follows, Follows-both}

-- A node between calls: its DAG and the lists of waiting blocks are in order, and the last decided
-- slot is that of an elected leader.
pub record IsReady (c : Committee) (n : ConsensusNode) : Type 0 where
  pub keyed : IsKeyed n.dag_state
  pub registered : IsRegistered n.block_manager
  pub elected : IsElected c n.last_decided

abbrev pub decided_of : ConsensusNode → Decided
decided_of n = record { dag_state = n.dag_state; last_decided = n.last_decided }

or_panic_inv : {A : Type 0} (o : Option A) (a : A) → or_panic o ≡ done a → o ≡ some a
or_panic_inv none a e = absurd (ground arith)
or_panic_inv (some b) a e = ground arith

abbrev Step : Type 0
Step = ConsensusNode × List ConsensusEvent

step_inv : (x y : Step) → ◌≡◌ {A = Outcome Step} (done x) (done y) → x ≡ y
step_inv x y e = ground arith

-- Whenever a ready node accepts some blocks: it is ready again, and the hard commits among its events
-- take the next indices and have leaders in ascending rounds above the last decided one.
pub accept_blocks-Follows :
    (sha3 : List ℕ → ℕ) (c : Committee) (n : ConsensusNode) (bs : List VerifiedBlock)
    {n' : ConsensusNode} {es : List ConsensusEvent}
    → IsReady c n
    → accept_blocks sha3 c n bs ≡ done (n', es)
    → IsReady c n' × Follows c (decided_of n) (decided_of n') es
unfolding accept_blocks try_accept_blocks
accept_blocks-Follows sha3 c n bs {n'} {es} k e =
    let start : Store = record { dag_state = n.dag_state; manager = n.block_manager } in
    let finish : Store × Answer
        → SoftCommitTracker × List ConsensusEvent
        → Decided × List ConsensusEvent
        → Step =
      λ r soft hard. (
        record {
          dag_state = hard.0.dag_state;
          block_manager = r.0.manager;
          soft_commit = soft.0;
          last_decided = hard.0.last_decided;
        },
        soft.1 ++ hard.1,
      ) in
    let third : Store × Answer → SoftCommitTracker × List ConsensusEvent → Outcome Step = λ r soft.
      try_hard_commit sha3 c (record { dag_state = r.0.dag_state; last_decided = n.last_decided })
      >>= λ hard. done (finish r soft hard) in
    let second : Store × Answer → Outcome Step =
      λ r. check_soft_commits c r.0.dag_state n.soft_commit r.1.accepted_blocks >>= third r in
    let ((w, a), e1, e2) = >>=-eq-done (or_panic (try_accept_blocks c start bs)) second e in
    let ((t, xs), e3, e4) =
      >>=-eq-done (check_soft_commits c w.dag_state n.soft_commit a.accepted_blocks) (third (w, a))
        e2 in
    let ((v, ys), e5, e6) =
      >>=-eq-done
        (try_hard_commit sha3 c (record { dag_state = w.dag_state; last_decided = n.last_decided }))
        (λ (hard : Decided × List ConsensusEvent). done (finish (w, a) (t, xs) hard)) e4 in
    let (registered, grown) =
      try_accept_blocks_internal-IsKept c start bs false k.registered k.keyed
        (or_panic_inv (try_accept_blocks c start bs) (w, a) e1) in
    let f =
      try_hard_commit-Follows sha3 c
        (record { dag_state = w.dag_state; last_decided = n.last_decided })
        (record { keyed = grown.keyed; elected = k.elected }) e5 in
    let soft = check_soft_commits-AreSoft c w.dag_state n.soft_commit a.accepted_blocks t xs e3 in
    subst (λ (x : Step). IsReady c x.0 × Follows c (decided_of n) (decided_of x.0) x.1)
      (step_inv (finish (w, a) (t, xs) (v, ys)) (n', es) e6)
      (
        record { keyed = f.settled.keyed; registered = registered; elected = f.settled.elected },
        Follows-both c (decided_of n)
            (record { dag_state = w.dag_state; last_decided = n.last_decided }) v xs ys
            (soft_first (record { dag_state = w.dag_state; last_decided = n.last_decided })
              grown.keyed grown.index soft)
            f,
      )
  where
    soft_first :
        (w : Decided) {xs : List ConsensusEvent}
        → IsKeyed w.dag_state
        → w.dag_state.last_commit_index ≡ n.dag_state.last_commit_index
        → AreSoft xs
        → Follows c (decided_of n) (record w { last_decided = n.last_decided }) xs
    soft_first w {xs} keyed index soft =
        let (ordered, same_index, same_round) =
          AreSoft-InOrder n.dag_state.last_commit_index n.last_decided.round xs soft in
        record {
          settled = record { keyed = keyed; elected = k.elected };
          ordered = ordered;
          index = index ∙ sym same_index;
          round = omega (arith, same_round);
        }

-- One call of `accept_blocks` after another, with all the events.
unfoldable pub accept_batches :
    (List ℕ → ℕ) → Committee → ConsensusNode → List (List VerifiedBlock) → Outcome Step
accept_batches sha3 c n [] = done (n, [])
accept_batches sha3 c n (bs ∷ rest) = accept_blocks sha3 c n bs >>= λ first.
    accept_batches sha3 c first.0 rest >>= λ more. done (more.0, first.1 ++ more.1)

batches-Follows :
    (sha3 : List ℕ → ℕ) (c : Committee) (n : ConsensusNode) (batches : List (List VerifiedBlock))
    {n' : ConsensusNode} {es : List ConsensusEvent}
    → IsReady c n
    → accept_batches sha3 c n batches ≡ done (n', es)
    → IsReady c n' × Follows c (decided_of n) (decided_of n') es
unfolding accept_batches
batches-Follows sha3 c n [] {n'} {es} k e =
    subst (λ (x : Step). IsReady c x.0 × Follows c (decided_of n) (decided_of x.0) x.1)
      (step_inv (n, []) (n', es) e)
      (
        k,
        record {
          settled = record { keyed = k.keyed; elected = k.elected };
          ordered = tt;
          index = refl;
          round = omega arith;
        },
      )
batches-Follows sha3 c n (bs ∷ rest) {n'} {es} k e =
    let ((n1, xs), e1, e2) =
      >>=-eq-done (accept_blocks sha3 c n bs)
        (λ (first : Step).
          accept_batches sha3 c first.0 rest >>= λ more. done (more.0, first.1 ++ more.1))
        e in
    let ((n2, ys), e3, e4) =
      >>=-eq-done (accept_batches sha3 c n1 rest) (λ (more : Step). done (more.0, xs ++ more.1))
        e2 in
    let (k1, f) = accept_blocks-Follows sha3 c n bs k e1 in
    let (k2, g) = batches-Follows sha3 c n1 rest k1 e3 in
    subst (λ (x : Step). IsReady c x.0 × Follows c (decided_of n) (decided_of x.0) x.1)
      (step_inv (n2, xs ++ ys) (n', es) e4)
      (k2, Follows-both c (decided_of n) (decided_of n1) (decided_of n2) xs ys f g)

-- Where a node is ready (a suspended block is on the lists of all that it misses, every block of the
-- DAG stands under its own reference, and the last decided slot is that of an elected leader), and
-- whenever it accepts batches of blocks one after another: it is ready again, the hard commits among
-- all its events take consecutive indices from the last one on, in u32 arithmetic, and their leaders
-- are in strictly ascending rounds, all above the last decided one; afterwards the DAG's last index is
-- that of the last of them, and the round of its leader is at most the last decided one.
pub accept_batches_lem :
    (sha3 : List ℕ → ℕ) (c : Committee) (n : ConsensusNode) (batches : List (List VerifiedBlock))
    {n' : ConsensusNode} {es : List ConsensusEvent}
    → IsReady c n
    → accept_batches sha3 c n batches ≡ done (n', es)
    → IsReady c n'
      × InOrder n.dag_state.last_commit_index n.last_decided.round es
      × (n'.dag_state.last_commit_index ≡ last_index n.dag_state.last_commit_index es)
      × (last_round n.last_decided.round es ≤ n'.last_decided.round)
accept_batches_lem sha3 c n batches k e =
    let (ready, f) = batches-Follows sha3 c n batches k e in (ready, f.ordered, f.index, f.round)
