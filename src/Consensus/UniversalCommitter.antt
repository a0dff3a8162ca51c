-- ===== src/Consensus/UniversalCommitter.antt =====
-- crates/consensus/src/universal_committer.rs: the decision of leaders from the newest round down, and
-- the committers that the builder makes. The head of a list of leaders is the front of the deque.
pub mod Prefix
pub mod Steps
pub mod Order
pub mod Ends
use dual_optimistic_l.Base.{
  ℕ, zero, suc, ◌+◌, ◌-◌, ◌%◌, ◌^◌, ◌==◌, Bool, true, false, Option, none, some, List, [], ◌∷◌,
  ◌++◌, map, if◌then◌else◌,
}
use dual_optimistic_l.Consensus.BaseCommitter.{BaseCommitterOptions, elect_leader}
use dual_optimistic_l.Consensus.BaseCommitter.Decide.{try_direct_decide, try_indirect_decide}
use dual_optimistic_l.Consensus.BaseCommitter.Support.{or_panic}
use dual_optimistic_l.Consensus.Commit.{
  LeaderStatus, DecidedLeader, Decision, status_round, is_decided, into_decided_leader,
}
use dual_optimistic_l.Consensus.Committee.{Committee}
use dual_optimistic_l.Consensus.DagState.{DagState}
use dual_optimistic_l.Consensus.DagState.Outcome.{Outcome, done, ◌>>=◌}
use dual_optimistic_l.Consensus.Types.{Slot, slot_eqb, genesis_round}

abbrev pub Leaders : Type 0
Leaders = List (LeaderStatus × Decision)

abbrev pub statuses : Leaders → List LeaderStatus
statuses = map (λ x. x.0)

module _ (c : Committee) (s : DagState) where
  -- The direct rule, and where it does not decide the indirect rule.
  unfoldable pub decide_slot : BaseCommitterOptions → Slot → Leaders → Outcome Leaders
  decide_slot o slot leaders = try_direct_decide c o s slot >>= λ status.
      if is_decided status
      then done ((status, Decision.direct) ∷ leaders)
      else (try_indirect_decide c o s slot (statuses leaders) >>= λ status.
          done ((status, Decision.indirect) ∷ leaders))

  -- One committer at one round. The Boolean says that the outer loop is left.
  unfoldable pub visit_slot :
      Slot → BaseCommitterOptions → Option Slot → Leaders → Outcome (Bool × Leaders)
  visit_slot last_decided o none leaders = done (false, leaders)
  visit_slot last_decided o (some slot) leaders =
      if slot_eqb slot last_decided
      then done (true, leaders)
      else (decide_slot o slot leaders >>= λ more. done (false, more))

  -- The committers in the order of the inner loop.
  unfoldable pub visit_round :
      Slot → ℕ → List BaseCommitterOptions → Leaders → Outcome (Bool × Leaders)
  visit_round last_decided round [] leaders = done (false, leaders)
  visit_round last_decided round (o ∷ rest) leaders = or_panic (elect_leader c o round) >>= λ slot.
      visit_slot last_decided o slot leaders >>= λ r. elim r.0 [
        | true ↦ done r
        | false ↦ visit_round last_decided round rest r.1
      ]

  -- The `n` rounds from the last decided one on, the newest first.
  unfoldable pub visit_rounds : Slot → List BaseCommitterOptions → ℕ → Leaders → Outcome Leaders
  visit_rounds last_decided committers zero leaders = done leaders
  visit_rounds last_decided committers (suc n) leaders =
      visit_round last_decided (last_decided.round + n) committers leaders >>= λ r. elim r.0 [
        | true ↦ done r.1
        | false ↦ visit_rounds last_decided committers n r.1
      ]

abbrev pub is_direct : Decision → Bool
is_direct Decision.direct = true
is_direct Decision.indirect = false

abbrev pub cons_some : Option DecidedLeader → List DecidedLeader → List DecidedLeader
cons_some none more = []
cons_some (some d) more = d ∷ more

-- The longest prefix of decided leaders, without genesis.
unfoldable pub decided_prefix : Leaders → List DecidedLeader
decided_prefix [] = []
decided_prefix ((leader, decision) ∷ rest) =
    let more = decided_prefix rest in
    if status_round leader == genesis_round
    then more
    else cons_some (into_decided_leader leader (is_direct decision)) more

unfoldable pub reverse : List BaseCommitterOptions → List BaseCommitterOptions
reverse [] = []
reverse (o ∷ rest) = reverse rest ++ (o ∷ [])

unfoldable pub try_decide :
    Committee → List BaseCommitterOptions → DagState → Slot → Outcome (List DecidedLeader)
try_decide c committers s last_decided =
    visit_rounds c s last_decided (reverse committers)
      (suc (s.highest_accepted_round - 2) - last_decided.round) []
    >>= λ leaders. done (decided_prefix leaders)

abbrev pub cons_authority : Option Slot → List ℕ → List ℕ
cons_authority none more = more
cons_authority (some slot) more = slot.authority ∷ more

-- All the leaders at a round; `none` is the panic of an election.
unfoldable pub get_leaders : Committee → List BaseCommitterOptions → ℕ → Option (List ℕ)
get_leaders c [] round = some []
get_leaders c (o ∷ rest) round = elim (elect_leader c o round) [
  | none ↦ none
  | some slot ↦ elim (get_leaders c rest round) [
    | none ↦ none
    | some more ↦ some (cons_authority slot more)
  ]
]

pub record UniversalCommitterBuilder : Type 0 where
  pub wave_length : ℕ
  pub number_of_leaders : ℕ
  pub pipeline : Bool

abbrev pub new_builder : UniversalCommitterBuilder
new_builder = record { wave_length = 3; number_of_leaders = 1; pipeline = false }

unfoldable pub with_wave_length : UniversalCommitterBuilder → ℕ → UniversalCommitterBuilder
with_wave_length b n = record b { wave_length = n }

unfoldable pub with_number_of_leaders : UniversalCommitterBuilder → ℕ → UniversalCommitterBuilder
with_number_of_leaders b n = record b { number_of_leaders = n }

unfoldable pub with_pipeline : UniversalCommitterBuilder → Bool → UniversalCommitterBuilder
with_pipeline b yes_ = record b { pipeline = yes_ }

-- The committers of the leader offsets from `i` on, `n` of them.
unfoldable pub leader_offsets : ℕ → ℕ → ℕ → ℕ → List BaseCommitterOptions
leader_offsets wave_length round_offset i zero = []
leader_offsets wave_length round_offset i (suc n) =
    record { wave_length = wave_length; leader_offset = i; round_offset = round_offset }
    ∷ leader_offsets wave_length round_offset (suc i) n

-- The same for each of the round offsets from `j` on, `m` of them.
unfoldable pub round_offsets : ℕ → ℕ → ℕ → ℕ → List BaseCommitterOptions
round_offsets wave_length leaders j zero = []
round_offsets wave_length leaders j (suc m) =
    leader_offsets wave_length j 0 leaders ++ round_offsets wave_length leaders (suc j) m

unfoldable pub build : UniversalCommitterBuilder → List BaseCommitterOptions
build b =
    let leaders = b.number_of_leaders % 2 ^ 32 in
    if b.pipeline
    then round_offsets b.wave_length leaders 0 b.wave_length
    else leader_offsets b.wave_length 0 0 leaders
