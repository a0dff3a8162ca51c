-- ===== src/Consensus/BaseCommitter/Support/Blame.antt =====
-- Who blames a leader.
use dual_optimistic_l.Base.{
  ℕ, ◌+◌, ◌^◌, ◌<◌, ◌≡◌, ◌≢◌, ◌↔◌, refl, sym, ap, ◌∙◌, inl, inr, Bool, true, false, not, Option,
  none, some, List, [], ◌∷◌, All, all, length, ◌==◌, ==_iff, arith, Bool-cases,
}
use dual_optimistic_l.Base.Key.{nat_key}
use dual_optimistic_l.Base.Map
use dual_optimistic_l.Base.Map.{Map}
use dual_optimistic_l.Base.Set
use dual_optimistic_l.Consensus.BaseCommitter.Support.{blames, blame_loop, enough_leader_blame}
use dual_optimistic_l.Consensus.BaseCommitter.Support.Tally.{
  voters_of, have_quorum, count_votes_lem, known_voters, blame_loop-count,
}
use dual_optimistic_l.Consensus.BaseCommitter.Support.Kept.{
  authors_of, Author, Author-inv, author-IsKept,
}
use dual_optimistic_l.Consensus.Committee.{Committee, reached_quorum}
use dual_optimistic_l.Consensus.Committee.Quorum.{total, weight}
use dual_optimistic_l.Consensus.DagState.{DagState, is_committed, in_round, uncommitted_at_round}
use dual_optimistic_l.Consensus.DagState.Store.{IsKeyed, get_uncommitted_blocks_at_round-some}
use dual_optimistic_l.Consensus.StakeAggregator
use dual_optimistic_l.Consensus.Types.{BlockRef, VerifiedBlock, reference, ref_key}

-- A block of the DAG, of round `n` and not committed, none of whose ancestors is by the leader.
pub record BlamesLeader (s : DagState) (n leader : ℕ) (b : VerifiedBlock) : Type 0 where
  pub in_dag : Map.get (reference b) s.blocks ≡ some b
  pub at_round : b.round ≡ n
  pub uncommitted : is_committed s (reference b) ≡ false
  pub not_named : All (λ a. a.author ≢ leader) b.ancestors

none_by :
    (leader : ℕ) (as_ : List BlockRef)
    → (all (λ a. not (a.author == leader)) as_ ≡ true) ↔ All (λ a. a.author ≢ leader) as_
none_by leader [] = (λ _. tt, λ _. refl)
none_by leader (a ∷ rest) = elim (Bool-cases (a.author == leader)) [
  | inl same ↦ (
    λ h. absurd (clash (rw (same, all) at h)),
    λ h. absurd (h.0 ((==_iff a.author leader).0 same)),
  )
  | inr other ↦
      let (to, from) = none_by leader rest in
      (
        λ h. (λ e. clash (sym other ∙ (==_iff a.author leader).1 e), to (rw (other, all) at h)),
        λ h. rw (other, all) (from h.1),
      )
]
  where
    clash : ¬ (false ≡ true)
    clash h = absurd (ground arith)

round_iff : (n : ℕ) (r : BlockRef) → n + 1 < 2 ^ 32 → (in_round n r ≡ true) ↔ (r.round ≡ n)
round_iff n r h = (λ e. ground arith, λ e. ground arith)

-- The authors of the blocks that blame the leader.
abbrev pub blamers : DagState → ℕ → ℕ → List ℕ
blamers s n leader = voters_of (blames leader) (λ b. b.author) (uncommitted_at_round s n)

-- In a DAG whose blocks stand under their own references, and below the last u32 round, these are the
-- authors of exactly the blocks that blame the leader.
pub blamers_iff :
    (s : DagState) (n leader j : ℕ)
    → IsKeyed s
    → n + 1 < 2 ^ 32
    → (Set.contains j (blamers s n leader) ≡ true)
      ↔ ((b : VerifiedBlock) × BlamesLeader s n leader b × (b.author ≡ j))
unfolding authors_of uncommitted_at_round Author
blamers_iff s n leader j k small = (to, from)
  where
    to :
        Set.contains j (blamers s n leader) ≡ true
        → (b : VerifiedBlock) × BlamesLeader s n leader b × (b.author ≡ j)
    to h =
        let (b, kept, blames_it, author) =
          Author-inv s n (blames leader) s.blocks j k.blocks k.sorted h in
        (
          b,
          record {
            in_dag = kept.there;
            at_round = (round_iff n (reference b) small).0 kept.here;
            uncommitted = kept.fresh;
            not_named = (none_by leader b.ancestors).0 blames_it;
          },
          author,
        )

    from :
        ((b : VerifiedBlock) × BlamesLeader s n leader b × (b.author ≡ j))
        → Set.contains j (blamers s n leader) ≡ true
    from (b, h, author) = rw (← author) (
        author-IsKept s n (blames leader) s.blocks b k.blocks
          (record {
            there = h.in_dag;
            here = (round_iff n (reference b) small).1 h.at_round;
            fresh = h.uncommitted;
          })
          ((none_by leader b.ancestors).1 h.not_named))

-- Whether there is enough blame, by the list of blamers.
pub blamers_quorum :
    (c : Committee) (s : DagState) (voting_round leader : ℕ)
    → voting_round + 1 < 2 ^ 32
    → total c.authorities < 2 ^ 64
    → 0 < c.quorum_threshold
    → All (λ b. b.author < length c.authorities) (uncommitted_at_round s voting_round)
    → enough_leader_blame c s voting_round leader
      ≡ some (have_quorum c (blamers s voting_round leader))
unfolding enough_leader_blame
blamers_quorum c s voting_round leader below small positive known =
    let bs = uncommitted_at_round s voting_round in
    let (agg, e) =
      count_votes_lem c (blames leader) (λ b. b.author) bs small positive
        (known_voters (length c.authorities) (blames leader) (λ b. b.author) bs known) in
    ap
      (λ o. elim o as (λ _. Option Bool) [
        | none ↦ none
        | some voting_blocks ↦ blame_loop c leader StakeAggregator.empty voting_blocks
      ])
      (get_uncommitted_blocks_at_round-some s voting_round below)
    ∙ blame_loop-count c leader StakeAggregator.empty bs e

-- In a DAG whose blocks stand under their own references, for a voting round below the last u32 round,
-- where the committee's total stake is below 2^64, its quorum is positive and the authors of the
-- uncommitted blocks of the voting round are known: the call does not panic, and there is enough
-- blame exactly if a quorum of stake is held by the authorities that have, in the DAG, an uncommitted
-- block of the voting round none of whose ancestors is by the leader.
pub enough_leader_blame_lem :
    (c : Committee) (s : DagState) (voting_round leader : ℕ)
    → IsKeyed s
    → voting_round + 1 < 2 ^ 32
    → total c.authorities < 2 ^ 64
    → 0 < c.quorum_threshold
    → All (λ b. b.author < length c.authorities) (uncommitted_at_round s voting_round)
    → (blame : ℕ → Bool) × ((j : ℕ)
        → (blame j ≡ true)
          ↔ ((b : VerifiedBlock) × BlamesLeader s voting_round leader b × (b.author ≡ j)))
      × (enough_leader_blame c s voting_round leader ≡ some (reached_quorum c (weight c blame)))
enough_leader_blame_lem c s voting_round leader k below small positive known = (
  λ j. Set.contains j (blamers s voting_round leader),
  λ j. blamers_iff s voting_round leader j k below,
  blamers_quorum c s voting_round leader below small positive known,
)
