-- ===== src/Consensus/Linearizer/History.antt =====
-- Whole histories of commits.
use dual_optimistic_l.Base.{
  ℕ, ◌+◌, ◌≤◌, ◌≡◌, refl, sym, ap, ◌∙◌, true, List, [], ◌∷◌, ltb, if◌then◌else◌, arith, add32,
}
use dual_optimistic_l.Consensus.Commit.{CommittedSubDag}
use dual_optimistic_l.Consensus.Commit.Sort.{bit, occurrences, IsOrdered}
use dual_optimistic_l.Consensus.DagState.{
  DagState, is_committed, record_commit, derive_commit_digest,
}
use dual_optimistic_l.Consensus.DagState.Outcome.{
  Outcome, done, ◌>>=◌, has_ended, >>=-has_ended, >>=-eq-done,
}
use dual_optimistic_l.Consensus.Types.{BlockRef, VerifiedBlock, reference, ref_key}
use dual_optimistic_l.Consensus.Linearizer.{linearize_sub_dag, commit_leader}
use dual_optimistic_l.Consensus.Linearizer.Counts.{linearize_sub_dag-occurrences}
use dual_optimistic_l.Consensus.Linearizer.Fuel.{linearize_sub_dag-ends}

-- How often a reference occurs in some sub-dags together.
abbrev pub occurrences_in : BlockRef → List CommittedSubDag → ℕ
occurrences_in r [] = 0
occurrences_in r (d ∷ ds) = occurrences r d.blocks + occurrences_in r ds

-- The indices count up from the one given, in u32 arithmetic, and no timestamp is before its
-- predecessor.
abbrev pub Follows : ℕ → ℕ → List CommittedSubDag → Type 0
Follows index time [] = Unit
Follows index time (d ∷ ds) =
    (d.commit_ref.index ≡ add32 index 1)
    × (time ≤ d.timestamp_ms)
    × Follows d.commit_ref.index d.timestamp_ms ds

module _ (sha3 : List ℕ → ℕ) where
  -- The sub-dag that `commit_leader` makes of some blocks.
  abbrev pub sub_dag : DagState → VerifiedBlock → List VerifiedBlock → CommittedSubDag
  sub_dag s leader blocks = record {
    leader = reference leader;
    blocks = blocks;
    timestamp_ms =
        if ltb leader.timestamp_ms s.last_commit_timestamp_ms
        then s.last_commit_timestamp_ms
        else leader.timestamp_ms;
    commit_ref = record {
      index = add32 s.last_commit_index 1;
      digest = derive_commit_digest sha3 (add32 s.last_commit_index 1) (reference leader);
    };
  }

  pair_inv :
      (t t' : DagState) (d d' : CommittedSubDag)
      → ◌≡◌ {A = Outcome (DagState × CommittedSubDag)} (done (t, d)) (done (t', d'))
      → (t' ≡ t) × (d' ≡ d)
  pair_inv t t' d d' e = ground arith

  pub commit_leader_inv :
      (s : DagState) (leader : VerifiedBlock) {t : DagState} {d : CommittedSubDag}
      → commit_leader sha3 s leader ≡ done (t, d)
      → (u : DagState) × (linearize_sub_dag leader s ≡ done (u, d.blocks))
        × (d ≡ sub_dag s leader d.blocks)
        × (t ≡ record_commit u d)
  unfolding commit_leader
  commit_leader_inv s leader {t} {d} e =
      let ((u, blocks), e1, e2) =
        >>=-eq-done (linearize_sub_dag leader s)
          (λ (r : DagState × List VerifiedBlock).
            done (record_commit r.0 (sub_dag s leader r.1), sub_dag s leader r.1))
          e in
      let (et, ed) = pair_inv _ t _ d e2 in
      let eb : d.blocks ≡ blocks = ap (λ x. x.blocks) ed in
      (
        u,
        e1 ∙ ap (λ (x : List VerifiedBlock). done (u, x)) (sym eb),
        ed ∙ ap (sub_dag s leader) (sym eb),
        et ∙ ap (record_commit u) (sym ed),
      )

  -- Whenever a commit returns: it takes the next index, a timestamp that is neither before the
  -- leader's nor before the last commit's, and every block that goes from uncommitted to
  -- committed, once, in order of round and author; the DAG's record of the last commit has the
  -- sub-dag's index and timestamp.
  pub commit_leader_lem :
      (s : DagState) (leader : VerifiedBlock) {t : DagState} {d : CommittedSubDag} (r : BlockRef)
      → commit_leader sha3 s leader ≡ done (t, d)
      → (d.commit_ref.index ≡ add32 s.last_commit_index 1)
        × (t.last_commit_index ≡ d.commit_ref.index)
        × (s.last_commit_timestamp_ms ≤ d.timestamp_ms)
        × (leader.timestamp_ms ≤ d.timestamp_ms)
        × (t.last_commit_timestamp_ms ≡ d.timestamp_ms)
        × (occurrences r d.blocks + bit (is_committed s r) ≡ bit (is_committed t r))
        × IsOrdered d.blocks
  unfolding record_commit is_committed
  commit_leader_lem s leader {t} {d} r e =
      let (u, ran, ed, et) = commit_leader_inv s leader {t = t} {d = d} e in
      let (counts, ordered) =
        linearize_sub_dag-occurrences s leader {t = u} {blocks = d.blocks} r ran in
      let time : d.timestamp_ms ≡ (sub_dag s leader d.blocks).timestamp_ms =
        ap (λ x. x.timestamp_ms) ed in
      (
        ap (λ x. x.commit_ref.index) ed,
        ap (λ x. x.last_commit_index) et,
        ground (arith, time),
        ground (arith, time),
        ap (λ x. x.last_commit_timestamp_ms) et,
        counts ∙ sym (ap (λ x. bit (is_committed x r)) et),
        ordered,
      )

  -- A sequence of leaders, each committed on the DAG that the one before leaves.
  unfoldable pub commit_leaders :
      DagState → List VerifiedBlock → Outcome (DagState × List CommittedSubDag)
  commit_leaders s [] = done (s, [])
  commit_leaders s (l ∷ ls) =
      commit_leader sha3 s l >>= λ r. commit_leaders r.0 ls >>= λ q. done (q.0, r.1 ∷ q.1)

  history_inv :
      (q0 t : DagState) (d : CommittedSubDag) (q1 ds : List CommittedSubDag)
      → ◌≡◌ {A = Outcome (DagState × List CommittedSubDag)} (done (q0, d ∷ q1)) (done (t, ds))
      → (t ≡ q0) × (ds ≡ d ∷ q1)
  history_inv q0 t d q1 ds e = ground arith

  commit_leaders_inv :
      (s : DagState) (l : VerifiedBlock) (ls : List VerifiedBlock) {t : DagState}
      {ds : List CommittedSubDag}
      → commit_leaders s (l ∷ ls) ≡ done (t, ds)
      → (u : DagState) × (d : CommittedSubDag) × (rest : List CommittedSubDag) × (commit_leader sha3
            s l
          ≡ done (u, d))
        × (commit_leaders u ls ≡ done (t, rest))
        × (ds ≡ d ∷ rest)
  unfolding commit_leaders
  commit_leaders_inv s l ls {t} {ds} e =
      let ((u, d), e1, e2) =
        >>=-eq-done (commit_leader sha3 s l)
          (λ (r : DagState × CommittedSubDag). commit_leaders r.0 ls >>= λ q. done (q.0, r.1 ∷ q.1))
          e in
      let ((v, rest), e3, e4) =
        >>=-eq-done (commit_leaders u ls)
          (λ (q : DagState × List CommittedSubDag). done (q.0, d ∷ q.1)) e2 in
      let (et, ed) = history_inv v t d rest ds e4 in
      (u, d, rest, e1, e3 ∙ ap (λ (x : DagState). done (x, rest)) (sym et), ed)

  Follows-from :
      (s u : DagState) (d : CommittedSubDag) (rest : List CommittedSubDag)
      → d.commit_ref.index ≡ add32 s.last_commit_index 1
      → u.last_commit_index ≡ d.commit_ref.index
      → s.last_commit_timestamp_ms ≤ d.timestamp_ms
      → u.last_commit_timestamp_ms ≡ d.timestamp_ms
      → Follows u.last_commit_index u.last_commit_timestamp_ms rest
      → Follows s.last_commit_index s.last_commit_timestamp_ms (d ∷ rest)
  Follows-from s u d rest i j h k f = (i, h, rw (j, k) at f)

  -- Over a whole sequence of commits that returns, a block occurs in all sub-dags together exactly
  -- as often as it goes from uncommitted to committed: none is in two sub-dags or twice in one.
  -- The commit indices are consecutive and the timestamps never go back.
  pub commit_leaders_lem :
      (s : DagState) (ls : List VerifiedBlock) {t : DagState} {ds : List CommittedSubDag}
      (r : BlockRef)
      → commit_leaders s ls ≡ done (t, ds)
      → (occurrences_in r ds + bit (is_committed s r) ≡ bit (is_committed t r))
        × Follows s.last_commit_index s.last_commit_timestamp_ms ds
  unfolding commit_leaders
  commit_leaders_lem s [] {t} {ds} r e =
      let (et, ed) = nothing s t ds e in rw (et, ed) (omega arith, tt)
    where
      nothing :
          (s t : DagState) (ds : List CommittedSubDag)
          → ◌≡◌ {A = Outcome (DagState × List CommittedSubDag)} (done (s, [])) (done (t, ds))
          → (t ≡ s) × (ds ≡ [])
      nothing s t ds e = ground arith
  commit_leaders_lem s (l ∷ ls) {t} {ds} r e =
      let (u, d, rest, e1, e2, ed) = commit_leaders_inv s l ls {t = t} {ds = ds} e in
      let (i, j, h, _, k, counts, _) = commit_leader_lem s l {t = u} {d = d} r e1 in
      let (more, follows) = commit_leaders_lem u ls {t = t} {ds = rest} r e2 in
      rw ed (omega (arith, counts, more), Follows-from s u d rest i j h k follows)

  -- A sequence of commits ends: with sub-dags, or by one of the source's panics, but never for
  -- want of fuel.
  pub commit_leaders-ends :
      (s : DagState) (ls : List VerifiedBlock) → has_ended (commit_leaders s ls) ≡ true
  unfolding commit_leaders commit_leader
  commit_leaders-ends s [] = refl
  commit_leaders-ends s (l ∷ ls) =
      >>=-has_ended (commit_leader sha3 s l)
        (λ (r : DagState × CommittedSubDag). commit_leaders r.0 ls >>= λ q. done (q.0, r.1 ∷ q.1))
        (>>=-has_ended (linearize_sub_dag l s) _ (linearize_sub_dag-ends l s) (λ r e. refl))
        (λ r e.
          >>=-has_ended (commit_leaders r.0 ls)
            (λ (q : DagState × List CommittedSubDag). done (q.0, r.1 ∷ q.1))
            (commit_leaders-ends r.0 ls) (λ q f. refl))
