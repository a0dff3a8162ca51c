-- ===== src/Consensus/BaseCommitter/Decide/Ends.antt =====
-- Both commit rules end within the fuel.
use dual_optimistic_l.Base.{
  ℕ, ◌≡◌, refl, Bool, true, false, List, [], ◌∷◌, keep, leb, if◌then◌else◌, add32,
}
use dual_optimistic_l.Base.Map.{Map}
use dual_optimistic_l.Consensus.BaseCommitter.{BaseCommitterOptions, decision_round, wave_number}
use dual_optimistic_l.Consensus.BaseCommitter.Decide.{
  cons_if, filter_blocks, at_most_one, try_direct_decide, any_certificate,
  decide_leader_from_anchor, from_anchors, try_indirect_decide,
}
use dual_optimistic_l.Consensus.BaseCommitter.Support.{
  or_panic, is_certificate, enough_leader_blame, enough_leader_support,
}
use dual_optimistic_l.Consensus.BaseCommitter.Support.Ends.{
  or_panic-Ended, is_certificate-Ended, enough_leader_support-Ended,
}
use dual_optimistic_l.Consensus.Commit.{LeaderStatus, status_round}
use dual_optimistic_l.Consensus.Committee.{Committee}
use dual_optimistic_l.Consensus.DagState.{DagState, get_uncommitted_blocks_at_slot}
use dual_optimistic_l.Consensus.DagState.Ancestors.{ancestors_at_round}
use dual_optimistic_l.Consensus.DagState.Ancestors.Fuel.{ancestors_at_round-ends}
use dual_optimistic_l.Consensus.DagState.Ancestors.Ascending.{IsDescending}
use dual_optimistic_l.Consensus.DagState.Outcome.{
  Outcome, done, ◌>>=◌, has_ended, Ended, >>=-has_ended,
}
use dual_optimistic_l.Consensus.Types.{BlockRef, Slot, VerifiedBlock}

filter_blocks-Ended :
    (test : VerifiedBlock → Outcome Bool) (bs : List VerifiedBlock)
    → ((b : VerifiedBlock) → Ended (test b))
    → Ended (filter_blocks test bs)
unfolding filter_blocks
filter_blocks-Ended test [] h = refl
filter_blocks-Ended test (b ∷ rest) h =
    >>=-has_ended (test b)
      (λ (y : Bool). filter_blocks test rest >>= λ more. done (cons_if y b more)) (h b)
      (λ y _.
        >>=-has_ended (filter_blocks test rest) (λ more. done (cons_if y b more))
          (filter_blocks-Ended test rest h) (λ _ _. refl))

picked-Ended :
    (otherwise : LeaderStatus) (out : List VerifiedBlock) → Ended (at_most_one otherwise out)
unfolding at_most_one
picked-Ended otherwise [] = refl
picked-Ended otherwise (b ∷ []) = refl
picked-Ended otherwise (b ∷ d ∷ rest) = refl

filtered-Ended :
    (test : VerifiedBlock → Outcome Bool) (bs : List VerifiedBlock) (otherwise : LeaderStatus)
    → ((b : VerifiedBlock) → Ended (test b))
    → Ended (filter_blocks test bs >>= at_most_one otherwise)
filtered-Ended test bs otherwise h =
    >>=-has_ended (filter_blocks test bs) (at_most_one otherwise) (filter_blocks-Ended test bs h)
      (λ out _. picked-Ended otherwise out)

pub try_direct_decide-Ended :
    (c : Committee) (o : BaseCommitterOptions) (s : DagState) (p : Slot)
    → IsDescending s
    → has_ended (try_direct_decide c o s p) ≡ true
unfolding try_direct_decide
try_direct_decide-Ended c o s p k =
    let rest : ℕ → Outcome LeaderStatus = λ wave.
      filter_blocks (enough_leader_support c s (decision_round o wave))
        (get_uncommitted_blocks_at_slot s p)
      >>= at_most_one (LeaderStatus.undecided p) in
    >>=-has_ended (or_panic (enough_leader_blame c s (add32 p.round 1) p.authority))
      (λ (blamed : Bool).
        if blamed then done (LeaderStatus.skip p) else (or_panic (wave_number o p.round) >>= rest))
      (or_panic-Ended (enough_leader_blame c s (add32 p.round 1) p.authority))
      (λ blamed _. split blamed rest (λ wave.
        filtered-Ended (enough_leader_support c s (decision_round o wave))
          (get_uncommitted_blocks_at_slot s p) (LeaderStatus.undecided p)
          (λ b. enough_leader_support-Ended c s (decision_round o wave) b k)))
  where
    split :
        (blamed : Bool) (rest : ℕ → Outcome LeaderStatus)
        → ((wave : ℕ) → Ended (rest wave))
        → Ended (
            if blamed
            then done (LeaderStatus.skip p)
            else (or_panic (wave_number o p.round) >>= rest))
    split true rest h = refl
    split false rest h =
        >>=-has_ended (or_panic (wave_number o p.round)) rest
          (or_panic-Ended (wave_number o p.round)) (λ wave _. h wave)

any_certificate-Ended :
    (c : Committee) (s : DagState) (l : VerifiedBlock) (cache : Map BlockRef Bool)
    (certs : List VerifiedBlock)
    → IsDescending s
    → Ended (any_certificate c s l cache certs)
unfolding any_certificate
any_certificate-Ended c s l cache [] k = refl
any_certificate-Ended c s l cache (cert ∷ rest) k =
    >>=-has_ended (is_certificate c s cert l cache)
      (λ (r : Bool × Map BlockRef Bool). elim r.0 [
        | true ↦ done true
        | false ↦ any_certificate c s l r.1 rest
      ])
      (is_certificate-Ended c s cert l cache k)
      (λ r _.
        elim r.0
          as (λ b. Ended (elim b as (λ _. Outcome Bool) [
            | true ↦ done true
            | false ↦ any_certificate c s l r.1 rest
          ])) [ true ↦ refl | false ↦ any_certificate-Ended c s l r.1 rest k ])

decide_leader_from_anchor-Ended :
    (c : Committee) (o : BaseCommitterOptions) (s : DagState) (anchor : VerifiedBlock) (p : Slot)
    → IsDescending s
    → Ended (decide_leader_from_anchor c o s anchor p)
unfolding decide_leader_from_anchor
decide_leader_from_anchor-Ended c o s anchor p k =
    let last_part : List VerifiedBlock → Outcome LeaderStatus = λ certs.
      filter_blocks (λ b. any_certificate c s b [] certs) (get_uncommitted_blocks_at_slot s p)
      >>= at_most_one (LeaderStatus.skip p) in
    >>=-has_ended (or_panic (wave_number o p.round))
      (λ (wave : ℕ). ancestors_at_round s anchor (decision_round o wave) >>= last_part)
      (or_panic-Ended (wave_number o p.round))
      (λ wave _.
        >>=-has_ended (ancestors_at_round s anchor (decision_round o wave)) last_part
          (ancestors_at_round-ends s anchor (decision_round o wave) k)
          (λ certs _.
            filtered-Ended (λ b. any_certificate c s b [] certs)
              (get_uncommitted_blocks_at_slot s p) (LeaderStatus.skip p)
              (λ b. any_certificate-Ended c s b [] certs k)))

from_anchors-Ended :
    (c : Committee) (o : BaseCommitterOptions) (s : DagState) (p : Slot) (xs : List LeaderStatus)
    → IsDescending s
    → Ended (from_anchors c o s p xs)
unfolding from_anchors
from_anchors-Ended c o s p [] k = refl
from_anchors-Ended c o s p (LeaderStatus.commit anchor ∷ rest) k =
    decide_leader_from_anchor-Ended c o s anchor p k
from_anchors-Ended c o s p (LeaderStatus.skip q ∷ rest) k = from_anchors-Ended c o s p rest k
from_anchors-Ended c o s p (LeaderStatus.undecided q ∷ rest) k = refl

pub try_indirect_decide-Ended :
    (c : Committee) (o : BaseCommitterOptions) (s : DagState) (p : Slot) (xs : List LeaderStatus)
    → IsDescending s
    → has_ended (try_indirect_decide c o s p xs) ≡ true
unfolding try_indirect_decide
try_indirect_decide-Ended c o s p xs k =
    from_anchors-Ended c o s p (keep (λ x. leb (add32 p.round o.wave_length) (status_round x)) xs) k
