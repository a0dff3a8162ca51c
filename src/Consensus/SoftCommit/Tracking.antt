-- ===== src/Consensus/SoftCommit/Tracking.antt =====
-- A leader is soft-committed exactly when the authorities that voted for it hold a quorum.
use dual_optimistic_l.Base.{
  ℕ, ◌^◌, ◌<◌, ◌≡◌, refl, sym, ap, ◌∙◌, inl, inr, Bool, true, false, not, ◌&&◌, ◌||◌, Option, none,
  some, List, [], ◌∷◌, All, length, if◌then◌else◌, arith, Bool-cases,
}
use dual_optimistic_l.Base.Key.{nat_key}
use dual_optimistic_l.Base.Map
use dual_optimistic_l.Base.Map.{get-insert}
use dual_optimistic_l.Base.Set
use dual_optimistic_l.Base.Set.{contains-insert}
use dual_optimistic_l.Consensus.Committee.{Committee, reached_quorum}
use dual_optimistic_l.Consensus.Committee.Quorum.{total, weight}
use dual_optimistic_l.Consensus.StakeAggregator.{StakeAggregator, quorum_threshold, add}
use dual_optimistic_l.Consensus.StakeAggregator.Votes.{weigh-none, add_lem}
use dual_optimistic_l.Consensus.StakeAggregator.Collect.{known_voter, reached_below}
use dual_optimistic_l.Consensus.Types.{BlockRef, ref_eqb, ref_iff, ref_key}
use dual_optimistic_l.Consensus.SoftCommit.{
  SoftCommitTracker, new, agg_of, or_empty, add_vote, is_soft_committed, is_soft_committed,
}
use dual_optimistic_l.Consensus.SoftCommit.Tally.{
  joined-IsTracked, joined-tally, Vote, IsTracked, voters_for, tally, tally-nil, tally_again,
}

after : SoftCommitTracker → BlockRef → StakeAggregator → Bool → SoftCommitTracker
after t l agg fires = record {
  votes = Map.insert l agg t.votes;
  soft_committed = if fires then Set.insert l t.soft_committed else t.soft_committed;
}

add_vote_again :
    (c : Committee) (t : SoftCommitTracker) (l : BlockRef) (v : ℕ)
    → is_soft_committed t l ≡ true
    → add_vote t l v c ≡ some (t, false)
unfolding add_vote is_soft_committed
add_vote_again c t l v h = rw h

add_vote_new :
    (c : Committee) (t : SoftCommitTracker) (l : BlockRef) (v : ℕ) (agg : StakeAggregator)
    (fires : Bool)
    → is_soft_committed t l ≡ false
    → add quorum_threshold (agg_of l t) v c ≡ some (agg, fires)
    → add_vote t l v c ≡ some (after t l agg fires, fires)
unfolding add_vote is_soft_committed after
add_vote_new c t l v agg true h e = rw (h, e)
add_vote_new c t l v agg false h e = rw (h, e)

or_empty_if :
    (b : Bool) (agg : StakeAggregator) (o : Option StakeAggregator)
    → or_empty (if b then some agg else o) ≡ (if b then agg else or_empty o)
or_empty_if true agg o = refl
or_empty_if false agg o = refl

after_aggs :
    (t : SoftCommitTracker) (l : BlockRef) (agg : StakeAggregator) (fires : Bool) (r : BlockRef)
    → agg_of r (after t l agg fires) ≡ (if ref_eqb r l then agg else agg_of r t)
unfolding agg_of after
after_aggs t l agg fires r =
    ap or_empty (get-insert r l agg t.votes) ∙ or_empty_if (ref_eqb r l) agg (Map.get r t.votes)

after_flags :
    (t : SoftCommitTracker) (l : BlockRef) (agg : StakeAggregator) (fires : Bool) (r : BlockRef)
    → is_soft_committed (after t l agg fires) r ≡ ((fires && ref_eqb r l) || is_soft_committed t r)
unfolding is_soft_committed after
after_flags t l agg true r = contains-insert r l t.soft_committed
after_flags t l agg false r = refl

first_time : (fires : Bool) (l : BlockRef) → fires ≡ ((fires && ref_eqb l l) || false)
first_time fires l = ground (arith, ref_iff l l)

fires_lem :
    (c : Committee) (old agg : StakeAggregator) (v : ℕ) (fires : Bool)
    → reached_quorum c old.stake ≡ false
    → (Set.contains v old.votes ≡ true → agg.stake ≡ old.stake)
    → fires ≡ (not (Set.contains v old.votes) && reached_quorum c agg.stake)
    → fires ≡ reached_quorum c agg.stake
fires_lem c old agg v fires h k f = elim (Bool-cases (Set.contains v old.votes)) [
  | inl known ↦ f ∙ rw (known, k known, h)
  | inr fresh ↦ f ∙ rw fresh
]

-- One vote by a known authority.
add_vote_step :
    (c : Committee) (t : SoftCommitTracker) (l : BlockRef) (v : ℕ)
    → total c.authorities < 2 ^ 64
    → v < length c.authorities
    → IsTracked c t
    → (t' : SoftCommitTracker) × (fires : Bool) × (add_vote t l v c ≡ some (t', fires))
      × IsTracked c t'
      × (fires ≡ (not (is_soft_committed t l) && is_soft_committed t' l))
      × ((vs : List Vote) (r : BlockRef) → tally c t' vs r ≡ tally c t ((l, v) ∷ vs) r)
add_vote_step c t l v h k i = elim (Bool-cases (is_soft_committed t l)) [
  | inl old ↦
      (t, false, add_vote_again c t l v old, i, rw old, λ vs r. tally_again c t l v vs r i old)
  | inr fresh ↦
      let (agg, fires, e, n, grown, f) =
        add_lem quorum_threshold c (agg_of l t) v h (i.counted l) k in
      let g : fires ≡ reached_quorum c agg.stake =
        fires_lem c (agg_of l t) agg v fires (sym (i.flagged l) ∙ fresh)
          (known_voter c (agg_of l t) agg v (i.counted l) n grown) f in
      let t' = after t l agg fires in
      let aggs = after_aggs t l agg fires in
      let flags = after_flags t l agg fires in
      (
        t',
        fires,
        add_vote_new c t l v agg fires fresh e,
        joined-IsTracked c t t' l v agg fires aggs flags fresh i n grown g,
        rw (flags l, fresh) (first_time fires l),
        joined-tally c t t' l v agg fires aggs flags fresh i n grown g,
      )
]

-- All votes of a list in turn.
pub add_votes : Committee → SoftCommitTracker → List Vote → Option SoftCommitTracker
add_votes c t [] = some t
add_votes c t ((l, v) ∷ vs) = elim (add_vote t l v c) [ none ↦ none | some r ↦ add_votes c r.0 vs ]

add_votes-tally :
    (c : Committee) (t : SoftCommitTracker) (vs : List Vote)
    → total c.authorities < 2 ^ 64
    → All (λ v. v.1 < length c.authorities) vs
    → IsTracked c t
    → (t' : SoftCommitTracker) × (add_votes c t vs ≡ some t')
      × ((r : BlockRef) → is_soft_committed t' r ≡ tally c t vs r)
unfolding add_votes
add_votes-tally c t [] h k i = (t, refl, λ r. tally-nil c t r i)
add_votes-tally c t ((l, v) ∷ vs) h k i =
    let (t', fires, e, i', f, same) = add_vote_step c t l v h k.0 i in
    let (t'', e', g) = add_votes-tally c t' vs h k.1 i' in
    (t'', rw (e, add_votes) e', λ r. g r ∙ same vs r)

pub new-IsTracked : (c : Committee) → 0 < c.quorum_threshold → IsTracked c new
unfolding new agg_of is_soft_committed Map.get Set.contains
new-IsTracked c q = record {
  counted = λ r. sym (weigh-none 0 c.authorities);
  flagged = λ r. sym (reached_below c 0 q);
}

-- Where the committee's total stake is below 2^64 and its quorum is not zero: whatever votes by
-- known authorities a new tracker is given, in whatever order and mixed between leaders, it never
-- fails, and afterwards a leader is soft-committed exactly if the distinct authorities that voted
-- for it hold a quorum.
pub add_votes_lem :
    (c : Committee) (vs : List Vote)
    → total c.authorities < 2 ^ 64
    → 0 < c.quorum_threshold
    → All (λ v. v.1 < length c.authorities) vs
    → (t : SoftCommitTracker) × (add_votes c new vs ≡ some t)
      × ((r : BlockRef)
          → is_soft_committed t r
            ≡ reached_quorum c (weight c (λ j. Set.contains j (voters_for r vs))))
unfolding new agg_of Map.get Set.contains
add_votes_lem c vs h q k =
    let (t, e, f) = add_votes-tally c new vs h k (new-IsTracked c q) in (t, e, f)

-- Where the committee's total stake is below 2^64 and the tracker counts its votes rightly, a vote
-- by a known authority never fails, and returns `true` exactly if its leader was not soft-
-- committed before and is so afterwards, so no leader is reported twice; the tracker still counts
-- rightly.
pub add_vote_fires_once :
    (c : Committee) (t : SoftCommitTracker) (l : BlockRef) (v : ℕ)
    → total c.authorities < 2 ^ 64
    → v < length c.authorities
    → IsTracked c t
    → (t' : SoftCommitTracker) × (fires : Bool) × (add_vote t l v c ≡ some (t', fires))
      × (fires ≡ (not (is_soft_committed t l) && is_soft_committed t' l))
      × IsTracked c t'
add_vote_fires_once c t l v h k i =
    let (t', fires, e, i', f, same) = add_vote_step c t l v h k i in (t', fires, e, f, i')
