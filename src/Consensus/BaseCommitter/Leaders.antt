-- ===== src/Consensus/BaseCommitter/Leaders.antt =====
-- The committer and the soft-commit tracker elect the same leaders.
use dual_optimistic_l.Base.{
  ℕ, ◌+◌, ◌≤◌, some, ◌-◌, ◌/◌, ◌%◌, ◌^◌, ◌<◌, ◌≡◌, ap, ◌∙◌, none, some, ◌==◌, if◌then◌else◌, add32,
  lt→ltb, le→leb, Option, ◌*◌, arith,
}
use dual_optimistic_l.Consensus.Committee
use dual_optimistic_l.Consensus.Committee.{Committee}
use dual_optimistic_l.Consensus.SoftCommit.{leader_at_round}
use dual_optimistic_l.Consensus.BaseCommitter.{
  BaseCommitterOptions, decision_round, default, leader_round, wave_number, elect_leader_index,
  slot_at, elect_leader, checked, checked_sub, and_then, checked_leader_round,
  checked_decision_round,
}

own_round :
    (round : ℕ)
    → round < 2 ^ 32
    → (leader_round default ((round - 0) / 3) == round) ≡ (round % 3 == 0)
unfolding leader_round
own_round round h = ground arith

same_index :
    (c : Committee) (round : ℕ)
    → round < 2 ^ 32
    → elect_leader_index c round 0 ≡ leader_at_round round (Committee.size c)
unfolding elect_leader_index leader_at_round
same_index c round h = let e : add32 round 0 ≡ round = omega arith in rw e

-- With the default options, the committer is responsible for exactly the u32 rounds that are a
-- multiple of three, and elects for each the authority that the soft-commit tracker elects; both panic
-- on the same committees.
pub elect_leader_lem :
    (c : Committee) (round : ℕ)
    → round < 2 ^ 32
    → elect_leader c default round ≡ (
        if round % 3 == 0
        then slot_at round (leader_at_round round (Committee.size c))
        else some none)
unfolding elect_leader wave_number
elect_leader_lem c round h =
    ap (λ b. if b then slot_at round (elect_leader_index c round 0) else some none)
      (own_round round h)
    ∙ ap (λ i. if round % 3 == 0 then slot_at round i else some none) (same_index c round h)

wave_of :
    (o : BaseCommitterOptions) (round : ℕ)
    → o.wave_length ≡ 3
    → wave_number o round ≡ some ((round - o.round_offset) / 3)
unfolding wave_number
wave_of o round h = rw (h, wave_number)

checked-some : (n : ℕ) → n < 2 ^ 32 → checked n ≡ some n
checked-some n h = rw (lt→ltb n (2 ^ 32) h)

and_then-checked : (n : ℕ) (f : ℕ → Option ℕ) → n < 2 ^ 32 → and_then (checked n) f ≡ f n
and_then-checked n f h = rw (lt→ltb n (2 ^ 32) h)

and_then-checked_sub :
    (a b : ℕ) (f : ℕ → Option ℕ) → b ≤ a → and_then (checked_sub a b) f ≡ f (a - b)
and_then-checked_sub a b f h = rw (le→leb b a h)

-- With waves of three rounds, at any round from the committer's offset on up to the third last u32
-- round: the call for the round's wave does not fail; with overflow checks on, the wave's leader round
-- and decision round do not panic at any of their operations, and are those that are computed
-- without the checks; the leader round is at most two rounds back, and the decision round
-- is two after the leader round.
pub wave_number_lem :
    (o : BaseCommitterOptions) (round : ℕ)
    → o.wave_length ≡ 3
    → o.round_offset ≤ round
    → round + 2 < 2 ^ 32
    → (wave : ℕ) × (wave_number o round ≡ some wave)
      × (checked_leader_round o wave ≡ some (leader_round o wave))
      × (checked_decision_round o wave ≡ some (decision_round o wave))
      × (leader_round o wave ≤ round)
      × (round ≤ leader_round o wave + 2)
      × (decision_round o wave ≡ leader_round o wave + 2)
unfolding leader_round decision_round checked_leader_round checked_decision_round
wave_number_lem o round h l small =
    let first = (round - o.round_offset) / 3 * 3 in
    let plus = λ (n : ℕ). checked (n + o.round_offset) in
    let minus = λ (n : ℕ). and_then (checked_sub n 1) plus in
    (
      (round - o.round_offset) / 3,
      wave_of o round h,
      rw h (
          and_then-checked first plus (omega arith)
          ∙ checked-some (first + o.round_offset) (omega arith)
          ∙ ap some (omega arith)),
      rw h (
          and_then-checked first (λ n. and_then (checked (n + 3)) minus) (omega arith)
          ∙ and_then-checked (first + 3) minus (omega arith)
          ∙ and_then-checked_sub (first + 3) 1 plus (omega arith)
          ∙ checked-some (first + 3 - 1 + o.round_offset) (omega arith)
          ∙ ap some (omega arith)),
      rw h (omega arith),
      rw h (omega arith),
      rw h (omega arith),
    )
