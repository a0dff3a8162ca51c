-- ===== src/Consensus/BaseCommitter.antt =====
-- crates/consensus/src/base_committer.rs: the election of leaders. The committee of the shared context
-- is an argument; `none` is the panic of a division by zero. Support and Decide hold the commit rules.
pub mod Leaders
pub mod Support
pub mod Decide
use dual_optimistic_l.Base.{
  ℕ, ◌+◌, ◌-◌, ◌*◌, ◌/◌, ◌%◌, ◌^◌, Option, none, some, ◌==◌, ltb, leb, if◌then◌else◌, add32, sub32,
  mul32,
}
use dual_optimistic_l.Consensus.Committee
use dual_optimistic_l.Consensus.Committee.{Committee}
use dual_optimistic_l.Consensus.Types.{Slot}

pub record BaseCommitterOptions : Type 0 where
  pub wave_length : ℕ
  pub leader_offset : ℕ
  pub round_offset : ℕ

abbrev pub default : BaseCommitterOptions
default = record { wave_length = 3; leader_offset = 0; round_offset = 0 }

unfoldable pub leader_round : BaseCommitterOptions → ℕ → ℕ
leader_round o wave = add32 (mul32 wave o.wave_length) o.round_offset

unfoldable pub decision_round : BaseCommitterOptions → ℕ → ℕ
decision_round o wave =
    add32 (sub32 (add32 (mul32 wave o.wave_length) o.wave_length) 1) o.round_offset

-- u32 arithmetic in a build with overflow checks, where `none` is the panic.
abbrev pub checked : ℕ → Option ℕ
checked n = if ltb n (2 ^ 32) then some n else none

abbrev pub checked_sub : ℕ → ℕ → Option ℕ
checked_sub a b = if leb b a then some (a - b) else none

abbrev pub and_then : Option ℕ → (ℕ → Option ℕ) → Option ℕ
and_then none f = none
and_then (some n) f = f n

-- `leader_round` and `decision_round` in such a build, operation by operation.
unfoldable pub checked_leader_round : BaseCommitterOptions → ℕ → Option ℕ
checked_leader_round o wave =
    and_then (checked (wave * o.wave_length)) (λ first. checked (first + o.round_offset))

unfoldable pub checked_decision_round : BaseCommitterOptions → ℕ → Option ℕ
checked_decision_round o wave = and_then (checked (wave * o.wave_length)) (λ first.
    and_then (checked (first + o.wave_length))
      (λ next. and_then (checked_sub next 1) (λ last. checked (last + o.round_offset))))

-- Saturating subtraction is subtraction on ℕ.
unfoldable pub wave_number : BaseCommitterOptions → ℕ → Option ℕ
wave_number o round =
    if o.wave_length == 0 then none else some ((round - o.round_offset) / o.wave_length)

unfoldable pub elect_leader_index : Committee → ℕ → ℕ → Option ℕ
elect_leader_index c round offset =
    let size = Committee.size c % 2 ^ 32 in
    if size == 0 then none else some (add32 round offset % size)

abbrev pub slot_at : ℕ → Option ℕ → Option (Option Slot)
slot_at round none = none
slot_at round (some index) = some (some (record { round = round; authority = index }))

-- The inner `none` says that the committer is not responsible for the round.
unfoldable pub elect_leader : Committee → BaseCommitterOptions → ℕ → Option (Option Slot)
elect_leader c o round = elim (wave_number o round) [
  | none ↦ none
  | some wave ↦
      if leader_round o wave == round
      then slot_at round (elect_leader_index c round o.leader_offset)
      else some none
]
