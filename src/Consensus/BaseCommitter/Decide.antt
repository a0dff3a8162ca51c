-- ===== src/Consensus/BaseCommitter/Decide.antt =====
-- The direct and the indirect rule of crates/consensus/src/base_committer.rs.
pub mod Slots
pub mod Ends
use dual_optimistic_l.Base.{Bool, true, false, List, [], ◌∷◌, keep, leb, if◌then◌else◌, add32}
use dual_optimistic_l.Base.Map.{Map}
use dual_optimistic_l.Consensus.BaseCommitter.{BaseCommitterOptions, decision_round, wave_number}
use dual_optimistic_l.Consensus.BaseCommitter.Support.{
  or_panic, is_certificate, enough_leader_blame, enough_leader_support,
}
use dual_optimistic_l.Consensus.Commit.{LeaderStatus, status_round}
use dual_optimistic_l.Consensus.Committee.{Committee}
use dual_optimistic_l.Consensus.DagState.{DagState, get_uncommitted_blocks_at_slot}
use dual_optimistic_l.Consensus.DagState.Ancestors.{ancestors_at_round}
use dual_optimistic_l.Consensus.DagState.Outcome.{Outcome, done, panic, ◌>>=◌}
use dual_optimistic_l.Consensus.Types.{BlockRef, Slot, VerifiedBlock}

abbrev pub cons_if : Bool → VerifiedBlock → List VerifiedBlock → List VerifiedBlock
cons_if true b more = b ∷ more
cons_if false b more = more

-- `filter` with a test that may panic.
unfoldable pub filter_blocks :
    (VerifiedBlock → Outcome Bool) → List VerifiedBlock → Outcome (List VerifiedBlock)
filter_blocks test [] = done []
filter_blocks test (b ∷ rest) = do
  yes_ ← test b
  more ← filter_blocks test rest
  done (cons_if yes_ b more)

-- The block that passed, `otherwise` if none did, and a panic if several did.
unfoldable pub at_most_one : LeaderStatus → List VerifiedBlock → Outcome LeaderStatus
at_most_one otherwise [] = done otherwise
at_most_one otherwise (b ∷ []) = done (LeaderStatus.commit b)
at_most_one otherwise (b ∷ d ∷ rest) = panic

unfoldable pub try_direct_decide :
    Committee → BaseCommitterOptions → DagState → Slot → Outcome LeaderStatus
try_direct_decide c o s leader =
    or_panic (enough_leader_blame c s (add32 leader.round 1) leader.authority) >>= λ blamed.
    if blamed
    then done (LeaderStatus.skip leader)
    else (or_panic (wave_number o leader.round) >>= λ wave.
        filter_blocks (enough_leader_support c s (decision_round o wave))
          (get_uncommitted_blocks_at_slot s leader)
        >>= at_most_one (LeaderStatus.undecided leader))

-- `any` over the potential certificates, which share the cache.
unfoldable pub any_certificate :
    Committee → DagState → VerifiedBlock → Map BlockRef Bool → List VerifiedBlock → Outcome Bool
any_certificate c s leader_block all_votes [] = done false
any_certificate c s leader_block all_votes (cert ∷ rest) =
    is_certificate c s cert leader_block all_votes >>= λ r. elim r.0 [
      | true ↦ done true
      | false ↦ any_certificate c s leader_block r.1 rest
    ]

unfoldable pub decide_leader_from_anchor :
    Committee → BaseCommitterOptions → DagState → VerifiedBlock → Slot → Outcome LeaderStatus
decide_leader_from_anchor c o s anchor leader_slot =
    or_panic (wave_number o leader_slot.round) >>= λ wave.
    ancestors_at_round s anchor (decision_round o wave) >>= λ potential_certificates.
    filter_blocks (λ leader_block. any_certificate c s leader_block [] potential_certificates)
      (get_uncommitted_blocks_at_slot s leader_slot)
    >>= at_most_one (LeaderStatus.skip leader_slot)

-- The loop over anchors.
unfoldable pub from_anchors :
    Committee → BaseCommitterOptions → DagState → Slot → List LeaderStatus → Outcome LeaderStatus
from_anchors c o s leader_slot [] = done (LeaderStatus.undecided leader_slot)
from_anchors c o s leader_slot (LeaderStatus.commit anchor ∷ rest) =
    decide_leader_from_anchor c o s anchor leader_slot
from_anchors c o s leader_slot (LeaderStatus.skip p ∷ rest) = from_anchors c o s leader_slot rest
from_anchors c o s leader_slot (LeaderStatus.undecided p ∷ rest) =
    done (LeaderStatus.undecided leader_slot)

unfoldable pub try_indirect_decide :
    Committee → BaseCommitterOptions → DagState → Slot → List LeaderStatus → Outcome LeaderStatus
try_indirect_decide c o s leader_slot leaders =
    from_anchors c o s leader_slot
      (keep (λ x. leb (add32 leader_slot.round o.wave_length) (status_round x)) leaders)
