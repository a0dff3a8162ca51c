-- ===== src/Consensus/SoftCommit/Tally.antt =====
-- The votes counted for each leader, and what one more vote changes of them.
use mathlib.Core.Bool.{and-true, and-false, or-false}
use dual_optimistic_l.Base.{
  ℕ, ◌≡◌, refl, sym, ap, ◌∙◌, inl, inr, Bool, true, false, ◌&&◌, ◌||◌, List, [], ◌∷◌, if◌then◌else◌,
  arith, Bool-cases, if_intro, ◌==◌,
}
use dual_optimistic_l.Base.Key.{nat_key}
use dual_optimistic_l.Base.Set
use dual_optimistic_l.Base.Set.{contains-insert}
use dual_optimistic_l.Consensus.Committee.{Committee, reached_quorum}
use dual_optimistic_l.Consensus.Committee.Quorum.{weight}
use dual_optimistic_l.Consensus.StakeAggregator.{StakeAggregator}
use dual_optimistic_l.Consensus.StakeAggregator.Votes.{Counts, weigh-ext, weigh_mono}
use dual_optimistic_l.Consensus.StakeAggregator.Collect.{
  voters, voters-nil, voters-cons, voters_mono, reached_lem, reached_inv,
}
use dual_optimistic_l.Consensus.Types.{BlockRef, ref_eqb, ref_iff, ref_key}
use dual_optimistic_l.Consensus.SoftCommit.{
  SoftCommitTracker, agg_of, is_soft_committed, is_soft_committed,
}

-- The vote of one authority for one leader.
abbrev pub Vote : Type 0
Vote = BlockRef × ℕ

pub record IsTracked (c : Committee) (t : SoftCommitTracker) : Type 0 where
  pub counted : (r : BlockRef) → Counts c (agg_of r t)
  pub flagged : (r : BlockRef) → is_soft_committed t r ≡ reached_quorum c (agg_of r t).stake

-- The authorities that a list of votes names for one leader.
abbrev pub voters_for : BlockRef → List Vote → List ℕ
voters_for r [] = []
voters_for r ((l, v) ∷ vs) = if ref_eqb r l then v ∷ voters_for r vs else voters_for r vs

-- Whether the votes counted for a leader, with those still to come, hold a quorum.
abbrev pub tally : Committee → SoftCommitTracker → List Vote → BlockRef → Bool
tally c t vs r = reached_quorum c (weight c (voters (agg_of r t) (voters_for r vs)))

pub tally_full :
    (c : Committee) (t : SoftCommitTracker) (vs : List Vote) (r : BlockRef)
    → IsTracked c t
    → is_soft_committed t r ≡ true
    → tally c t vs r ≡ true
tally_full c t vs r i s = reached_lem c _ (
    omega (
      arith,
      reached_inv c (agg_of r t).stake (sym (i.flagged r) ∙ s),
      i.counted r,
      weigh_mono 0 c.authorities (λ j. Set.contains j (agg_of r t).votes)
          (voters (agg_of r t) (voters_for r vs)) (voters_mono (agg_of r t) (voters_for r vs)),
    ))

pub tally-nil :
    (c : Committee) (t : SoftCommitTracker) (r : BlockRef)
    → IsTracked c t
    → is_soft_committed t r ≡ tally c t [] r
tally-nil c t r i =
    i.flagged r
    ∙ ap (reached_quorum c) (i.counted r ∙ weigh-ext 0 c.authorities _ _ (voters-nil (agg_of r t)))

-- A vote for a leader that is committed already changes no tally.
pub tally_again :
    (c : Committee) (t : SoftCommitTracker) (l : BlockRef) (v : ℕ) (vs : List Vote) (r : BlockRef)
    → IsTracked c t
    → is_soft_committed t l ≡ true
    → tally c t vs r ≡ tally c t ((l, v) ∷ vs) r
tally_again c t l v vs r i s = elim (Bool-cases (ref_eqb r l)) [
  | inl e ↦
      let k : is_soft_committed t r ≡ true = rw ((ref_iff r l).0 e) s in
      tally_full c t vs r i k ∙ sym (tally_full c t ((l, v) ∷ vs) r i k)
  | inr e ↦ rw e
]

pub flag_case :
    (c : Committee) (fires here soft : Bool) (agg old : StakeAggregator)
    → (here ≡ true → soft ≡ false)
    → soft ≡ reached_quorum c old.stake
    → fires ≡ reached_quorum c agg.stake
    → ((fires && here) || soft) ≡ reached_quorum c (if here then agg else old).stake
flag_case c fires true soft agg old h s f = rw (h refl, and-true, or-false) f
flag_case c fires false soft agg old h s f = rw and-false s

module _ (c : Committee) (t t' : SoftCommitTracker) (l : BlockRef) (v : ℕ) (agg : StakeAggregator)
    (fires : Bool) (aggs : (r : BlockRef) → agg_of r t' ≡ (if ref_eqb r l then agg else agg_of r t))
    (flags : (r : BlockRef)
      → is_soft_committed t' r ≡ ((fires && ref_eqb r l) || is_soft_committed t r))
    (fresh : is_soft_committed t l ≡ false) (tracked : IsTracked c t) (counts : Counts c agg)
    (grown : (j : ℕ) → Set.contains j agg.votes ≡ (j == v || Set.contains j (agg_of l t).votes))
    (fired : fires ≡ reached_quorum c agg.stake) where
  pub joined-IsTracked : IsTracked c t'
  joined-IsTracked = record {
    counted = λ r.
        rw (aggs r) (
          if_intro (Counts c) (ref_eqb r l) agg (agg_of r t) (λ _. counts)
            (λ _. tracked.counted r));
    flagged = λ r.
        flags r
        ∙ rw (aggs r) (
            flag_case c fires (ref_eqb r l) _ agg (agg_of r t) (λ e. rw ((ref_iff r l).0 e) fresh)
              (tracked.flagged r) fired);
  }

  pub joined-tally : (vs : List Vote) (r : BlockRef) → tally c t' vs r ≡ tally c t ((l, v) ∷ vs) r
  joined-tally vs r = elim (Bool-cases (ref_eqb r l)) [
    | inl e ↦
        let a : agg_of r t' ≡ agg = aggs r ∙ rw e in
        let g : (j : ℕ)
            → Set.contains j (agg_of r t').votes ≡ (j == v || Set.contains j (agg_of r t).votes) =
          λ j. rw (a, (ref_iff r l).0 e) (grown j) in
        ap (reached_quorum c) (
          weigh-ext 0 c.authorities _ _
            (λ j. voters-cons (agg_of r t) (agg_of r t') v (voters_for r vs) j (g j)))
        ∙ rw e
    | inr e ↦ let a : agg_of r t' ≡ agg_of r t = aggs r ∙ rw e in rw (a, e)
  ]
