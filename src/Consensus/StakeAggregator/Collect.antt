-- ===== src/Consensus/StakeAggregator/Collect.antt =====
-- Votes one after another, as the committers and the clock take them, until the aggregator fires.
use mathlib.Core.Bool.{or-true}
use dual_optimistic_l.Base.{
  ℕ, ◌^◌, ◌≤◌, ◌<◌, ◌≡◌, sym, ◌∙◌, inl, inr, Bool, true, false, not, ◌&&◌, ◌||◌, some, List, [],
  ◌∷◌, All, length, leb→le, le→leb, ◌==◌, ==_iff, arith, Bool-cases,
}
use dual_optimistic_l.Base.Key.{nat_key}
use dual_optimistic_l.Base.Set
use dual_optimistic_l.Base.Set.{contains-insert}
use dual_optimistic_l.Consensus.Committee.{Committee, reached_quorum}
use dual_optimistic_l.Consensus.Committee.Quorum.{total, weight}
use dual_optimistic_l.Consensus.StakeAggregator.{
  StakeAggregator, CommitteeThreshold, quorum_threshold, add, collect,
}
use dual_optimistic_l.Consensus.StakeAggregator.Votes.{weigh-ext, Counts, add_lem, weigh_mono}

-- The voters that have been counted, with those still to come.
abbrev pub voters : StakeAggregator → List ℕ → ℕ → Bool
voters agg vs j = Set.contains j agg.votes || Set.contains j vs

pub collect_stop :
    (T : CommitteeThreshold) (c : Committee) (agg : StakeAggregator) {agg' : StakeAggregator}
    (v : ℕ) (vs : List ℕ)
    → add T agg v c ≡ some (agg', true)
    → collect T c agg (v ∷ vs) ≡ some (agg', true)
unfolding collect
collect_stop T c agg v vs e = rw (e, collect)

pub collect_more :
    (T : CommitteeThreshold) (c : Committee) (agg : StakeAggregator) {agg' : StakeAggregator}
    (v : ℕ) (vs : List ℕ)
    → add T agg v c ≡ some (agg', false)
    → collect T c agg (v ∷ vs) ≡ collect T c agg' vs
unfolding collect
collect_more T c agg v vs e = rw (e, collect)

-- A vote that adds nothing leaves the stake.
pub known_voter :
    (c : Committee) (agg agg' : StakeAggregator) (v : ℕ)
    → Counts c agg
    → Counts c agg'
    → ((j : ℕ) → Set.contains j agg'.votes ≡ (j == v || Set.contains j agg.votes))
    → Set.contains v agg.votes ≡ true
    → agg'.stake ≡ agg.stake
known_voter c agg agg' v n n' grown old =
    n' ∙ weigh-ext 0 c.authorities _ _ (λ j. grown j ∙ absorbed j) ∙ sym n
  where
    moved : (j : ℕ) → j ≡ v → Set.contains j agg.votes ≡ true
    moved j e = rw e old

    absorbed : (j : ℕ) → (j == v || Set.contains j agg.votes) ≡ Set.contains j agg.votes
    absorbed j = ground (arith, ==_iff j v, moved j)

pub add_below :
    (c : Committee) (agg agg' : StakeAggregator) (v : ℕ)
    → agg.stake < c.quorum_threshold
    → (Set.contains v agg.votes ≡ true → agg'.stake ≡ agg.stake)
    → false ≡ (not (Set.contains v agg.votes) && reached_quorum c agg'.stake)
    → agg'.stake < c.quorum_threshold
unfolding reached_quorum
add_below c agg agg' v q k f = ground arith

pub reached_lem : (c : Committee) (s : ℕ) → c.quorum_threshold ≤ s → reached_quorum c s ≡ true
unfolding reached_quorum
reached_lem c s h = le→leb _ _ h

pub reached_below : (c : Committee) (s : ℕ) → s < c.quorum_threshold → reached_quorum c s ≡ false
unfolding reached_quorum
reached_below c s h = ground arith

pub reached_inv : (c : Committee) (s : ℕ) → reached_quorum c s ≡ true → c.quorum_threshold ≤ s
unfolding reached_quorum
reached_inv c s h = leb→le _ _ h

pub voters-nil : (agg : StakeAggregator) (j : ℕ) → Set.contains j agg.votes ≡ voters agg [] j
unfolding Set.contains
voters-nil agg j = ground arith

pub voters-cons :
    (agg agg' : StakeAggregator) (v : ℕ) (vs : List ℕ) (j : ℕ)
    → Set.contains j agg'.votes ≡ (j == v || Set.contains j agg.votes)
    → voters agg' vs j ≡ voters agg (v ∷ vs) j
unfolding Set.contains
voters-cons agg agg' v vs j g = ground arith

pub voters_mono :
    (agg : StakeAggregator) (vs : List ℕ) (j : ℕ)
    → Set.contains j agg.votes ≡ true
    → voters agg vs j ≡ true
voters_mono agg vs j h = rw h

-- Where the committee's total stake is below 2^64, and the aggregator holds the stake of its votes
-- and less than a quorum, adding votes of known authorities one by one never fails, and fires
-- exactly if all the voters together, each counted once, hold a quorum. So the answer depends
-- neither on the order of the votes nor on repeated ones.
pub collect_lem :
    (c : Committee) (agg : StakeAggregator) (vs : List ℕ)
    → total c.authorities < 2 ^ 64
    → Counts c agg
    → agg.stake < c.quorum_threshold
    → All (λ v. v < length c.authorities) vs
    → (agg' : StakeAggregator) × (collect quorum_threshold c agg vs
        ≡ some (agg', reached_quorum c (weight c (voters agg vs))))
unfolding collect
collect_lem c agg [] h n q a =
    let e : agg.stake ≡ weight c (voters agg []) =
      n ∙ weigh-ext 0 c.authorities _ _ (voters-nil agg) in
    (agg, rw (← e, reached_below c agg.stake q))
collect_lem c agg (v ∷ vs) h n q a =
    let (agg', fires, e, n', grown, f) = add_lem quorum_threshold c agg v h n a.0 in
    let w : weight c (voters agg' vs) ≡ weight c (voters agg (v ∷ vs)) =
      weigh-ext 0 c.authorities _ _ (λ j. voters-cons agg agg' v vs j (grown j)) in
    elim (Bool-cases fires) [
      | inl stop ↦ (
        agg',
        collect_stop quorum_threshold c agg v vs (rw stop at e)
            ∙ rw (reached_lem c _ (full agg' (reached agg' fires stop f) n' w)),
      )
      | inr more ↦
          let b : agg'.stake < c.quorum_threshold =
            add_below c agg agg' v q (known_voter c agg agg' v n n' grown) (sym more ∙ f) in
          let (agg'', r) = collect_lem c agg' vs h n' b a.1 in
          (agg'', collect_more quorum_threshold c agg v vs (rw more at e) ∙ rw w at r)
    ]
  where
    reached :
        (agg' : StakeAggregator) (fires : Bool)
        → fires ≡ true
        → fires ≡ (not (Set.contains v agg.votes) && reached_quorum c agg'.stake)
        → c.quorum_threshold ≤ agg'.stake
    reached agg' fires s f = reached_inv c _ (ground arith)

    full :
        (agg' : StakeAggregator)
        → c.quorum_threshold ≤ agg'.stake
        → Counts c agg'
        → weight c (voters agg' vs) ≡ weight c (voters agg (v ∷ vs))
        → c.quorum_threshold ≤ weight c (voters agg (v ∷ vs))
    full agg' r n' w = omega (
      arith,
      weigh_mono 0 c.authorities (λ j. Set.contains j agg'.votes) (voters agg' vs)
          (voters_mono agg' vs),
    )

-- Where the committee's total stake is below 2^64, an aggregator that holds the stake of its votes
-- and a quorum already still fires: the vote of a known authority that has not voted yet returns
-- `true` again.
pub add_fires_again :
    (c : Committee) (agg : StakeAggregator) (v : ℕ)
    → total c.authorities < 2 ^ 64
    → Counts c agg
    → v < length c.authorities
    → c.quorum_threshold ≤ agg.stake
    → Set.contains v agg.votes ≡ false
    → (agg' : StakeAggregator) × (add quorum_threshold agg v c ≡ some (agg', true))
add_fires_again c agg v h n l q fresh =
    let (agg', fires, e, n', grown, f) = add_lem quorum_threshold c agg v h n l in
    let more : agg.stake ≤ agg'.stake = omega (
      arith,
      weigh_mono 0 c.authorities (λ j. Set.contains j agg.votes) (λ j. Set.contains j agg'.votes)
          (λ j k. rw (grown j, k) (or-true _)),
    ) in
    let yes_ : fires ≡ true = rw (f, fresh, reached_lem c agg'.stake (omega arith)) in
    (agg', rw yes_ at e)
