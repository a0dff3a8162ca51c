-- ===== src/Consensus/BaseCommitter/Support/Equivocation.antt =====
-- What it takes for a leader to be both blamed by a quorum and certified.
use mathlib.Core.Path.{subst}
use dual_optimistic_l.Base.{
  ℕ, ◌+◌, ◌^◌, ◌≤◌, ◌<◌, ◌≡◌, ◌≢◌, refl, sym, ap, ◌∙◌, Bool, true, ◌&&◌, Option, some, List, [],
  All, length, arith,
}
use dual_optimistic_l.Base.Key.{nat_key}
use dual_optimistic_l.Base.Map.{Map}
use dual_optimistic_l.Base.Set
use dual_optimistic_l.Consensus.BaseCommitter.Support.{vote_of, is_certificate, enough_leader_blame}
use dual_optimistic_l.Consensus.BaseCommitter.Support.Certificates.{
  certifies, HasVotes, empty-HoldsVotes, is_certificate_lem,
}
use dual_optimistic_l.Consensus.BaseCommitter.Support.Supports.{IsCausal}
use dual_optimistic_l.Consensus.BaseCommitter.Support.Tally.{voters_of, have_quorum}
use dual_optimistic_l.Consensus.Committee
use dual_optimistic_l.Consensus.Committee.{Committee, Authority, reached_validity}
use dual_optimistic_l.Consensus.Committee.Quorum.{total, weight, quorum_intersection}
use dual_optimistic_l.Consensus.DagState.{DagState, get_block, uncommitted_at_round}
use dual_optimistic_l.Consensus.DagState.Outcome.{Outcome, done}
use dual_optimistic_l.Consensus.Types.{BlockRef, VerifiedBlock, reference, ref_key}
use dual_optimistic_l.Consensus.Committee.Quorum.{new_inv}
use dual_optimistic_l.Consensus.BaseCommitter.Support.Conflict.{vote_names, All-get, passed_author}
use dual_optimistic_l.Consensus.BaseCommitter.Support.Blame.{
  BlamesLeader, blamers, blamers_iff, blamers_quorum,
}

-- The authority `j` has two different blocks in the DAG, at the round above the leader `l`: one that
-- blames the leader, and one that names the leader's block and is an ancestor of the certificate `b`.
pub record Equivocates (s : DagState) (b l : VerifiedBlock) (j : ℕ) : Type 0 where
  pub blaming : VerifiedBlock
  pub voting : VerifiedBlock
  pub blaming_author : blaming.author ≡ j
  pub voting_author : voting.author ≡ j
  pub blames_leader : BlamesLeader s (l.round + 1) l.author blaming
  pub voting_in_dag : get_block s (reference voting) ≡ some voting
  pub voting_round : voting.round ≡ l.round + 1
  pub names_leader : Set.contains (reference l) voting.ancestors ≡ true
  pub in_certificate : Set.contains (reference voting) b.ancestors ≡ true
  pub differ : reference blaming ≢ reference voting

abbrev voters_for : (BlockRef → Bool) → VerifiedBlock → List ℕ
voters_for v b = voters_of v (λ a. a.author) b.ancestors

-- Of two blocks of the DAG where one blames a leader that the other names, the references differ.
blaming-voting :
    (s : DagState) (n : ℕ) (l x d : VerifiedBlock)
    → BlamesLeader s n l.author x
    → get_block s (reference d) ≡ some d
    → Set.contains (reference l) d.ancestors ≡ true
    → reference x ≢ reference d
unfolding get_block
blaming-voting s n l x d h found named e =
    let same : x ≡ d = one (sym (found_at (subst (λ r. get_block s r ≡ some d) (sym e) found))) in
    All-get (λ a. a.author ≢ l.author) x.ancestors (reference l) h.not_named (rw same named) refl
  where
    found_at : get_block s (reference x) ≡ some d → some d ≡ some x
    found_at g = sym g ∙ rw (get_block, h.in_dag)

    one : ◌≡◌ {A = Option VerifiedBlock} (some x) (some d) → x ≡ d
    one g = ground arith

equivocation :
    (s : DagState) (b l : VerifiedBlock) (v : BlockRef → Bool) (j : ℕ)
    → l.round + 2 < 2 ^ 32
    → IsCausal s
    → All (λ a. vote_of s l a ≡ done (v a)) b.ancestors
    → All (λ a. a.round ≤ l.round + 1) b.ancestors
    → Set.contains j (blamers s (l.round + 1) l.author) ≡ true
    → Set.contains j (voters_for v b) ≡ true
    → Equivocates s b l j
equivocation s b l v j low k votes near blamed voted =
    let (x, blames_it, author) =
      (blamers_iff s (l.round + 1) l.author j k.keyed (omega arith)).0 blamed in
    let (a, inside, yes_, author') = passed_author v b.ancestors j voted in
    let vote = All-get (λ a. vote_of s l a ≡ done (v a)) b.ancestors a votes inside in
    let near_a = All-get (λ a. a.round ≤ l.round + 1) b.ancestors a near inside in
    let (d, found, at_a, round, named) = vote_names s l a k near_a (vote ∙ ap done yes_) in
    let in_dag : get_block s (reference d) ≡ some d = rw at_a found in
    record {
      blaming = x;
      voting = d;
      blaming_author = author;
      voting_author = ap (λ r. r.author) at_a ∙ author';
      blames_leader = blames_it;
      voting_in_dag = in_dag;
      voting_round = round;
      names_leader = named;
      in_certificate = rw at_a inside;
      differ = blaming-voting s (l.round + 1) l x d blames_it in_dag named;
    }

certificate_inv :
    (x : Bool) (m m' : Map BlockRef Bool)
    → ◌≡◌ {A = Outcome (Bool × Map BlockRef Bool)} (done (x, m)) (done (true, m'))
    → x ≡ true
certificate_inv x m m' e = ground arith

some-true : (x : Bool) → ◌≡◌ {A = Option Bool} (some true) (some x) → x ≡ true
some-true x e = ground arith

-- In a committee that `new` returns for authorities with a total stake below 2^63, for a leader whose
-- round is below the last two u32 rounds, and in a DAG whose
-- blocks stand under their own references with their ancestors in it at lower rounds, where the
-- uncommitted blocks right above the leader have known authors, and a block's ancestors stand at most
-- one round above the leader and have known authors and the votes that `v` gives: if there is enough
-- blame for the leader's author and the block is found to be a certificate for the leader, then there
-- are authorities whose stake reaches the validity threshold, more than may be faulty, each of which
-- has two different blocks in the DAG at the round above the leader: an uncommitted one with no ancestor by
-- the leader's author, and one that is an ancestor of the certificate and has the leader's
-- block as an ancestor.
pub blame_and_certificate_lem :
    (epoch : ℕ) (xs : List Authority) {c : Committee} (s : DagState) (b l : VerifiedBlock)
    (v : BlockRef → Bool) {cache : Map BlockRef Bool}
    → total xs < 2 ^ 63
    → Committee.new epoch xs ≡ some c
    → l.round + 2 < 2 ^ 32
    → IsCausal s
    → All (λ b. b.author < length c.authorities) (uncommitted_at_round s (l.round + 1))
    → HasVotes c s l v b
    → All (λ a. a.round ≤ l.round + 1) b.ancestors
    → enough_leader_blame c s (l.round + 1) l.author ≡ some true
    → is_certificate c s b l [] ≡ done (true, cache)
    → (both : ℕ → Bool) × (reached_validity c (weight c both) ≡ true)
      × ((j : ℕ) → both j ≡ true → Equivocates s b l j)
blame_and_certificate_lem epoch xs {c} s b l v {cache} small made low k known votes near blame
      cert =
    let (pos, same, quorum, validity) = new_inv epoch xs made in
    let room : total c.authorities < 2 ^ 64 =
      subst (λ ys. total ys < 2 ^ 64) (sym same) (omega arith) in
    let positive : 0 < c.quorum_threshold = omega arith in
    let blamed : have_quorum c (blamers s (l.round + 1) l.author) ≡ true =
      some-true _
        (sym blame ∙ blamers_quorum c s (l.round + 1) l.author (omega arith) room positive known) in
    let (cache', e, _) = is_certificate_lem c s b l v [] room positive votes (empty-HoldsVotes v) in
    let certified : certifies c v b ≡ true =
      certificate_inv (certifies c v b) cache' cache (sym e ∙ cert) in
    (
      λ j. Set.contains j (blamers s (l.round + 1) l.author) && Set.contains j (voters_for v b),
      quorum_intersection epoch xs (λ j. Set.contains j (blamers s (l.round + 1) l.author))
          (λ j. Set.contains j (voters_for v b)) small made blamed certified,
      λ j h. equivocation s b l v j low k votes.0 near (left _ _ h) (right _ _ h),
    )
  where
    left : (x y : Bool) → (x && y) ≡ true → x ≡ true
    left x y h = ground arith

    right : (x y : Bool) → (x && y) ≡ true → y ≡ true
    right x y h = ground arith
