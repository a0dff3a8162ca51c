-- ===== src/Consensus/BaseCommitter/Support/Certificates.antt =====
-- Certificates and their support, and the cache of votes.
use dual_optimistic_l.Base.{
  ◌+◌, ℕ, ◌^◌, ◌<◌, ◌≡◌, sym, ap, ◌∙◌, ◌⊎◌, inl, inr, Bool, true, false, some, List, [], ◌∷◌, All,
  length, arith, Bool-cases, Option-cases, if◌then◌else◌,
}
use dual_optimistic_l.Base.Map
use dual_optimistic_l.Base.Map.{Map, get-insert}
use dual_optimistic_l.Consensus.BaseCommitter.Support.{
  or_panic, vote_of, cached_vote, add_if, certify, is_certificate, support_loop,
  enough_leader_support,
}
use dual_optimistic_l.Consensus.BaseCommitter.Support.Tally.{
  voters_of, have_quorum, count_votes, count_votes_lem, known_voters, count_inv,
}
use dual_optimistic_l.Consensus.Committee.{Committee}
use dual_optimistic_l.Consensus.Committee.Quorum.{total}
use dual_optimistic_l.Consensus.DagState.{DagState, uncommitted_at_round}
use dual_optimistic_l.Consensus.DagState.Store.{get_uncommitted_blocks_at_round-some}
use dual_optimistic_l.Consensus.DagState.Outcome.{Outcome, done, ◌>>=◌}
use dual_optimistic_l.Consensus.StakeAggregator.{StakeAggregator}
use dual_optimistic_l.Consensus.StakeAggregator
use dual_optimistic_l.Consensus.Types.{BlockRef, VerifiedBlock, ref_eqb, ref_iff, ref_key}

-- What the cache holds are the votes `v`.
abbrev pub HoldsVotes : (BlockRef → Bool) → Map BlockRef Bool → Type 0
HoldsVotes v cache = (r : BlockRef) (b : Bool) → Map.get r cache ≡ some b → b ≡ v r

pub empty-HoldsVotes : (v : BlockRef → Bool) → HoldsVotes v []
unfolding Map.get
empty-HoldsVotes v r b e = cc

insert-HoldsVotes :
    (v : BlockRef → Bool) (cache : Map BlockRef Bool) (a : BlockRef)
    → HoldsVotes v cache
    → HoldsVotes v (Map.insert a (v a) cache)
insert-HoldsVotes v cache a h r b e =
    go (Bool-cases (ref_eqb r a)) (sym (get-insert r a (v a) cache) ∙ e)
  where
    go :
        (ref_eqb r a ≡ true) ⊎ (ref_eqb r a ≡ false)
        → (if ref_eqb r a then some (v a) else Map.get r cache) ≡ some b
        → b ≡ v r
    go (inl same) f = let k : r ≡ a = (ref_iff r a).0 same in rw k (ground arith)
    go (inr other) f = h r b (ground arith)

cached_vote_lem :
    (s : DagState) (leader_block : VerifiedBlock) (v : BlockRef → Bool) (cache : Map BlockRef Bool)
    (a : BlockRef)
    → HoldsVotes v cache
    → vote_of s leader_block a ≡ done (v a)
    → (cache' : Map BlockRef Bool) × (cached_vote s leader_block cache a ≡ done (v a, cache'))
      × HoldsVotes v cache'
unfolding cached_vote
cached_vote_lem s l v cache a h vote = elim (Option-cases (Map.get a cache)) [
  | inl e ↦ (Map.insert a (v a) cache, rw (e, vote, cached_vote), insert-HoldsVotes v cache a h)
  | inr (b, e) ↦ (cache, rw (e, cached_vote) (ap (λ x. done (x, cache)) (h a b e)), h)
]

-- The step of the two loops below, after their flag is known.
abbrev after_add {ℓ} :
    {A : Type ℓ} → A → (StakeAggregator → Outcome A) → StakeAggregator × Bool → Outcome A
after_add stop go t = elim t.1 [ true ↦ done stop | false ↦ go t.0 ]

certify-count :
    (c : Committee) (s : DagState) (l : VerifiedBlock) (v : BlockRef → Bool)
    (cache : Map BlockRef Bool) (agg : StakeAggregator) (as_ : List BlockRef)
    {agg' : StakeAggregator} {fires : Bool}
    → HoldsVotes v cache
    → All (λ a. vote_of s l a ≡ done (v a)) as_
    → count_votes c v (λ a. a.author) agg as_ ≡ some (agg', fires)
    → (cache' : Map BlockRef Bool) × (certify c s l cache agg as_ ≡ done (fires, cache'))
      × HoldsVotes v cache'
unfolding certify count_votes
certify-count c s l v cache agg [] h votes e = (cache, ground arith, h)
certify-count c s l v cache agg (a ∷ rest) h votes e =
    let (cache1, e1, h1) = cached_vote_lem s l v cache a h votes.0 in
    let open_ : certify c s l cache agg (a ∷ rest) ≡ (
        or_panic (add_if c (v a) a.author agg)
        >>= after_add (true, cache1) (λ t. certify c s l cache1 t rest)) =
      rw (e1, certify) in
    elim (count_inv c v (λ a. a.author) agg a rest e) [
      | inl (t, added, fired) ↦ (cache1, open_ ∙ rw (added, fired), h1)
      | inr (t, added, more) ↦
          let (cache2, e2, h2) = certify-count c s l v cache1 t rest h1 votes.1 more in
          (cache2, open_ ∙ rw added e2, h2)
    ]

-- The authors of the ancestors that vote hold a quorum.
abbrev pub certifies : Committee → (BlockRef → Bool) → VerifiedBlock → Bool
certifies c v b = have_quorum c (voters_of v (λ a. a.author) b.ancestors)

-- The votes of a block's ancestors are `v`, and their authors are known.
abbrev pub HasVotes :
    Committee → DagState → VerifiedBlock → (BlockRef → Bool) → VerifiedBlock → Type 0
HasVotes c s leader_block v b =
    All (λ a. vote_of s leader_block a ≡ done (v a)) b.ancestors
    × All (λ a. a.author < length c.authorities) b.ancestors

-- Where the committee's total stake is below 2^64, its quorum is positive, every ancestor of a block has the
-- vote that `v` gives and a known author, and the cache holds only votes of `v`: the block is found to
-- be a certificate exactly if the distinct authors of its ancestors that vote hold a quorum, whatever
-- the cache holds, and the cache still holds only votes of `v`.
pub is_certificate_lem :
    (c : Committee) (s : DagState) (b leader_block : VerifiedBlock) (v : BlockRef → Bool)
    (cache : Map BlockRef Bool)
    → total c.authorities < 2 ^ 64
    → 0 < c.quorum_threshold
    → HasVotes c s leader_block v b
    → HoldsVotes v cache
    → (cache' : Map BlockRef Bool) × (is_certificate c s b leader_block cache
        ≡ done (certifies c v b, cache'))
      × HoldsVotes v cache'
unfolding is_certificate
is_certificate_lem c s b l v cache small positive (votes, known) h =
    let (agg, e) =
      count_votes_lem c v (λ a. a.author) b.ancestors small positive
        (known_voters (length c.authorities) v (λ a. a.author) b.ancestors known) in
    certify-count c s l v cache StakeAggregator.empty b.ancestors h votes e

support_loop-count :
    (c : Committee) (s : DagState) (l : VerifiedBlock) (v : BlockRef → Bool)
    (cache : Map BlockRef Bool) (agg : StakeAggregator) (bs : List VerifiedBlock)
    {agg' : StakeAggregator} {fires : Bool}
    → total c.authorities < 2 ^ 64
    → 0 < c.quorum_threshold
    → HoldsVotes v cache
    → All (HasVotes c s l v) bs
    → count_votes c (certifies c v) (λ b. b.author) agg bs ≡ some (agg', fires)
    → support_loop c s l cache agg bs ≡ done fires
unfolding support_loop count_votes
support_loop-count c s l v cache agg [] small positive h votes e = ground arith
support_loop-count c s l v cache agg (b ∷ bs) small positive h votes e =
    let (cache1, e1, h1) = is_certificate_lem c s b l v cache small positive votes.0 h in
    let open_ : support_loop c s l cache agg (b ∷ bs) ≡ (
        or_panic (add_if c (certifies c v b) b.author agg)
        >>= after_add true (λ t. support_loop c s l cache1 t bs)) =
      rw (e1, support_loop) in
    elim (count_inv c (certifies c v) (λ b. b.author) agg b bs e) [
      | inl (t, added, fired) ↦ open_ ∙ rw (added, fired)
      | inr (t, added, more) ↦
          open_ ∙ rw added (support_loop-count c s l v cache1 t bs small positive h1 votes.1 more)
    ]

-- Below the last u32 round, where the committee's total stake is below 2^64, its quorum is positive,
-- and every uncommitted block of the decision round has a known author and ancestors of known authors with the votes that `v`
-- gives: the leader has enough support exactly if the distinct authors of those of these blocks that
-- are certificates hold a quorum, where a block is a certificate if the distinct authors of its
-- voting ancestors hold one.
pub enough_leader_support_lem :
    (c : Committee) (s : DagState) (decision_round : ℕ) (leader_block : VerifiedBlock)
    (v : BlockRef → Bool)
    → decision_round + 1 < 2 ^ 32
    → total c.authorities < 2 ^ 64
    → 0 < c.quorum_threshold
    → All (λ b. b.author < length c.authorities) (uncommitted_at_round s decision_round)
    → All (HasVotes c s leader_block v) (uncommitted_at_round s decision_round)
    → enough_leader_support c s decision_round leader_block
      ≡ done (
          have_quorum c
            (voters_of (certifies c v) (λ b. b.author) (uncommitted_at_round s decision_round)))
unfolding enough_leader_support
enough_leader_support_lem c s decision_round l v below small positive known votes =
    let bs = uncommitted_at_round s decision_round in
    let (agg, e) =
      count_votes_lem c (certifies c v) (λ b. b.author) bs small positive
        (known_voters (length c.authorities) (certifies c v) (λ b. b.author) bs known) in
    ap (λ o. or_panic o >>= support_loop c s l [] StakeAggregator.empty)
      (get_uncommitted_blocks_at_round-some s decision_round below)
    ∙ support_loop-count c s l v [] StakeAggregator.empty bs small positive (empty-HoldsVotes v)
        votes e
