-- ===== src/Consensus/BaseCommitter/Support.antt =====
-- The votes, certificates and blames of crates/consensus/src/base_committer.rs. The cache of votes is
-- passed on explicitly. The search for a supported block has one unit of fuel more than the round
-- that it starts from and the blocks of the DAG together: a deeper recursion comes to a block a second
-- time, and never returns.
pub mod Tally
pub mod Supports
pub mod Search
pub mod Ends
pub mod Certificates
pub mod Kept
pub mod Blame
pub mod Conflict
pub mod Equivocation
use dual_optimistic_l.Base.{
  ℕ, zero, suc, ◌==◌, Bool, true, false, not, Option, none, some, List, [], ◌∷◌, ◌+◌, all, length,
  ltb, leb, if◌then◌else◌,
}
use dual_optimistic_l.Base.Map
use dual_optimistic_l.Base.Map.{Map}
use dual_optimistic_l.Consensus.Committee.{Committee}
use dual_optimistic_l.Consensus.DagState.{
  DagState, get_block, gc_round, get_uncommitted_blocks_at_round,
}
use dual_optimistic_l.Consensus.DagState.Outcome.{Outcome, done, panic, out_of_fuel, ◌>>=◌}
use dual_optimistic_l.Consensus.StakeAggregator
use dual_optimistic_l.Consensus.StakeAggregator.{StakeAggregator, quorum_threshold}
use dual_optimistic_l.Consensus.Types.{
  BlockRef, Slot, VerifiedBlock, reference, ref_eqb, ref_key, slot_eqb, slot_of,
}

abbrev pub or_panic {ℓ} : {A : Type ℓ} → Option A → Outcome A
or_panic none = panic
or_panic (some a) = done a

-- The first ancestor in the leader's slot.
unfoldable pub first_at : Slot → List BlockRef → Option BlockRef
first_at p [] = none
first_at p (a ∷ rest) = if slot_eqb (slot_of a) p then some a else first_at p rest

abbrev pub found_or : Option BlockRef → Outcome (Option BlockRef) → Outcome (Option BlockRef)
found_or none more = more
found_or (some a) more = done (some a)

-- The recursive call `find` on the ancestors above the leader's round, until one finds a block.
unfoldable pub search_weak :
    (VerifiedBlock → Outcome (Option BlockRef))
    → DagState
    → Slot
    → List BlockRef
    → Outcome (Option BlockRef)
search_weak find s p [] = done none
search_weak find s p (a ∷ rest) =
    let more = search_weak find s p rest in
    if leb a.round p.round
    then more
    else elim (get_block s a) [ none ↦ panic | some b ↦ find b >>= λ r. found_or r more ]

unfoldable pub find_from : ℕ → DagState → Slot → VerifiedBlock → Outcome (Option BlockRef)
find_from zero s p from = out_of_fuel
find_from (suc fuel) s p from =
    if ltb from.round p.round then done none else elim (first_at p from.ancestors) [
      | some a ↦ done (some a)
      | none ↦ search_weak (find_from fuel s p) s p from.ancestors
    ]

unfoldable pub find_supported_block : DagState → Slot → VerifiedBlock → Outcome (Option BlockRef)
find_supported_block s p from =
    find_from (suc (from.round + (length s.blocks + length s.genesis))) s p from

abbrev pub is_reference : BlockRef → Option BlockRef → Bool
is_reference r none = false
is_reference r (some a) = ref_eqb a r

unfoldable pub is_vote : DagState → VerifiedBlock → VerifiedBlock → Outcome Bool
is_vote s potential_vote leader_block =
    find_supported_block s (slot_of (reference leader_block)) potential_vote >>= λ r.
    done (is_reference (reference leader_block) r)

-- The vote of an ancestor that is not cached: a panic if the DAG lacks it.
unfoldable pub vote_of : DagState → VerifiedBlock → BlockRef → Outcome Bool
vote_of s leader_block a = elim (get_block s a) [
  | some potential_vote ↦ is_vote s potential_vote leader_block
  | none ↦ if leb a.round (gc_round s) then done false else panic
]

unfoldable pub cached_vote :
    DagState → VerifiedBlock → Map BlockRef Bool → BlockRef → Outcome (Bool × Map BlockRef Bool)
cached_vote s leader_block all_votes a = elim (Map.get a all_votes) [
  | some cached ↦ done (cached, all_votes)
  | none ↦ vote_of s leader_block a >>= λ vote. done (vote, Map.insert a vote all_votes)
]

-- `yes && stake.add(author)`
unfoldable pub add_if : Committee → Bool → ℕ → StakeAggregator → Option (StakeAggregator × Bool)
add_if c counts author agg =
    if counts then StakeAggregator.add quorum_threshold agg author c else some (agg, false)

-- The loop of `is_certificate` over ancestors.
unfoldable pub certify :
    Committee
    → DagState
    → VerifiedBlock
    → Map BlockRef Bool
    → StakeAggregator
    → List BlockRef
    → Outcome (Bool × Map BlockRef Bool)
certify c s leader_block all_votes agg [] = done (false, all_votes)
certify c s leader_block all_votes agg (a ∷ rest) = cached_vote s leader_block all_votes a >>= λ v.
    or_panic (add_if c v.0 a.author agg) >>= λ t. elim t.1 [
      | true ↦ done (true, v.1)
      | false ↦ certify c s leader_block v.1 t.0 rest
    ]

unfoldable pub is_certificate :
    Committee
    → DagState
    → VerifiedBlock
    → VerifiedBlock
    → Map BlockRef Bool
    → Outcome (Bool × Map BlockRef Bool)
is_certificate c s potential_certificate leader_block all_votes =
    certify c s leader_block all_votes StakeAggregator.empty potential_certificate.ancestors

-- No ancestor of the block is by the leader.
abbrev pub blames : ℕ → VerifiedBlock → Bool
blames leader b = all (λ a. not (a.author == leader)) b.ancestors

unfoldable pub blame_loop : Committee → ℕ → StakeAggregator → List VerifiedBlock → Option Bool
blame_loop c leader agg [] = some false
blame_loop c leader agg (b ∷ rest) = elim (add_if c (blames leader b) b.author agg) [
  | none ↦ none
  | some t ↦ elim t.1 [ true ↦ some true | false ↦ blame_loop c leader t.0 rest ]
]

unfoldable pub enough_leader_blame : Committee → DagState → ℕ → ℕ → Option Bool
enough_leader_blame c s voting_round leader =
    elim (get_uncommitted_blocks_at_round s voting_round) [
      | none ↦ none
      | some voting_blocks ↦ blame_loop c leader StakeAggregator.empty voting_blocks
    ]

unfoldable pub support_loop :
    Committee
    → DagState
    → VerifiedBlock
    → Map BlockRef Bool
    → StakeAggregator
    → List VerifiedBlock
    → Outcome Bool
support_loop c s leader_block all_votes agg [] = done false
support_loop c s leader_block all_votes agg (b ∷ rest) =
    is_certificate c s b leader_block all_votes >>= λ r.
    or_panic (add_if c r.0 b.author agg) >>= λ t. elim t.1 [
      | true ↦ done true
      | false ↦ support_loop c s leader_block r.1 t.0 rest
    ]

unfoldable pub enough_leader_support : Committee → DagState → ℕ → VerifiedBlock → Outcome Bool
enough_leader_support c s decision_round leader_block =
    or_panic (get_uncommitted_blocks_at_round s decision_round) >>= λ decision_blocks.
    support_loop c s leader_block [] StakeAggregator.empty decision_blocks
