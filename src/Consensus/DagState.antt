-- ===== src/Consensus/DagState.antt =====
-- crates/consensus/src/dag_state.rs: the local DAG. The committee of the shared context is an
-- argument, SHA3-256 a parameter.
pub mod Outcome
pub mod Store
pub mod Causal
pub mod Ancestors
use dual_optimistic_l.Base.{
  ℕ, zero, suc, ◌+◌, Bool, true, false, not, ◌&&◌, ◌||◌, Option, none, some, List, [], ◌∷◌, ◌++◌,
  map, length, keep, ltb, if◌then◌else◌, add32,
}
use dual_optimistic_l.Base.Map
use dual_optimistic_l.Base.Map.{Map}
use dual_optimistic_l.Base.Set
use dual_optimistic_l.Consensus.Committee.{Committee}
use dual_optimistic_l.Consensus.Commit.{CommittedSubDag, genesis_commit_index}
use dual_optimistic_l.Consensus.ThresholdClock
use dual_optimistic_l.Consensus.ThresholdClock.{ThresholdClock}
use dual_optimistic_l.Consensus.Types.{
  BlockRef, Slot, VerifiedBlock, reference, ref_less, ref_key, genesis_blocks, digest_max, le_bytes,
  be_bytes,
}

pub record DagState : Type 0 where
  pub genesis : Map BlockRef VerifiedBlock
  pub blocks : Map BlockRef VerifiedBlock
  pub committed : List BlockRef
  pub threshold_clock : ThresholdClock
  pub highest_accepted_round : ℕ
  pub last_commit_index : ℕ
  pub last_commit_digest : ℕ
  pub last_commit_timestamp_ms : ℕ

-- `collect()` into a map and into a set.
unfoldable pub index_blocks : List VerifiedBlock → Map BlockRef VerifiedBlock
index_blocks [] = []
index_blocks (b ∷ rest) = Map.insert (reference b) b (index_blocks rest)

unfoldable pub keys_of : Map BlockRef VerifiedBlock → List BlockRef
keys_of [] = []
keys_of ((r, b) ∷ rest) = Set.insert r (keys_of rest)

unfoldable pub new : (List ℕ → ℕ) → Committee → DagState
new sha3 c =
    let genesis = index_blocks (genesis_blocks sha3 c) in
    record {
      genesis = genesis;
      blocks = [];
      committed = keys_of genesis;
      threshold_clock = ThresholdClock.new 1;
      highest_accepted_round = 0;
      last_commit_index = genesis_commit_index;
      last_commit_digest = 0;
      last_commit_timestamp_ms = 0;
    }

-- One block of `accept_blocks`; `none` is the panic of the clock at an unknown author.
unfoldable pub accept_block : Committee → DagState → VerifiedBlock → Option DagState
accept_block c s b = elim (ThresholdClock.add_block c s.threshold_clock (reference b)) [
  | none ↦ none
  | some r ↦ some (record s {
    threshold_clock = r.0;
    highest_accepted_round =
        if ltb s.highest_accepted_round b.round then b.round else s.highest_accepted_round;
    blocks = Map.insert (reference b) b s.blocks;
  })
]

unfoldable pub accept_blocks : Committee → DagState → List VerifiedBlock → Option DagState
accept_blocks c s [] = some s
accept_blocks c s (b ∷ rest) = elim (accept_block c s b) [
  | none ↦ none
  | some t ↦ accept_blocks c t rest
]

abbrev pub or_else : Option VerifiedBlock → Option VerifiedBlock → Option VerifiedBlock
or_else none o = o
or_else (some b) o = some b

unfoldable pub get_block : DagState → BlockRef → Option VerifiedBlock
get_block s r = or_else (Map.get r s.blocks) (Map.get r s.genesis)

unfoldable pub get_blocks : DagState → List BlockRef → List (Option VerifiedBlock)
get_blocks s = map (get_block s)

abbrev pub is_some : Option VerifiedBlock → Bool
is_some none = false
is_some (some b) = true

unfoldable pub contains_block : DagState → BlockRef → Bool
contains_block s r = is_some (Map.get r s.blocks) || is_some (Map.get r s.genesis)

unfoldable pub contains_blocks : DagState → List BlockRef → List Bool
contains_blocks s = map (contains_block s)

unfoldable pub is_committed : DagState → BlockRef → Bool
is_committed s r = Set.contains r s.committed

-- `false` if the block was committed already.
unfoldable pub set_committed : DagState → BlockRef → DagState × Bool
set_committed s r =
    (record s { committed = Set.insert r s.committed }, not (Set.contains r s.committed))

-- The blocks of a range of references that are not committed, in the map's order.
unfoldable pub uncommitted_in :
    DagState → (BlockRef → Bool) → Map BlockRef VerifiedBlock → List VerifiedBlock
uncommitted_in s in_range [] = []
uncommitted_in s in_range ((r, b) ∷ rest) =
    let more = uncommitted_in s in_range rest in
    if in_range r && not (is_committed s (reference b)) then b ∷ more else more

abbrev pub in_slot : Slot → BlockRef → Bool
in_slot p r =
    not (ref_less r (record { round = p.round; author = p.authority; digest = 0 }))
    && not (ref_less (record { round = p.round; author = p.authority; digest = digest_max }) r)

unfoldable pub get_uncommitted_blocks_at_slot : DagState → Slot → List VerifiedBlock
get_uncommitted_blocks_at_slot s p = uncommitted_in s (in_slot p) s.blocks

-- The least reference of a round.
abbrev pub round_start : ℕ → BlockRef
round_start n = record { round = n; author = 0; digest = 0 }

abbrev pub in_round : ℕ → BlockRef → Bool
in_round n r = not (ref_less r (round_start n)) && ref_less r (round_start (add32 n 1))

-- What the range yields where its start is not above its end.
unfoldable pub uncommitted_at_round : DagState → ℕ → List VerifiedBlock
uncommitted_at_round s n = uncommitted_in s (in_round n) s.blocks

-- `none` is the panic of `range` where the next round wraps around to 0, so that the range's start
-- is above its end.
unfoldable pub get_uncommitted_blocks_at_round : DagState → ℕ → Option (List VerifiedBlock)
get_uncommitted_blocks_at_round s n =
    if ref_less (round_start (add32 n 1)) (round_start n)
    then none
    else some (uncommitted_at_round s n)

-- `debug_assert!` of the sequential index is off in release builds.
unfoldable pub record_commit : DagState → CommittedSubDag → DagState
record_commit s d = record s {
  last_commit_index = d.commit_ref.index;
  last_commit_digest = d.commit_ref.digest;
  last_commit_timestamp_ms = d.timestamp_ms;
}

abbrev pub gc_round : DagState → ℕ
gc_round s = 0

unfoldable pub derive_commit_digest : (List ℕ → ℕ) → ℕ → BlockRef → ℕ
derive_commit_digest sha3 index leader = sha3 (
    le_bytes 4 index
    ++ (le_bytes 4 leader.round ++ (le_bytes 4 leader.author ++ be_bytes 32 leader.digest)))
