-- ===== src/Consensus/Committee.antt =====
-- crates/consensus/src/committee.rs: the authorities of an epoch with their stakes, and the quorum
-- and validity thresholds. `none` is a panic: a failed `assert!` or an index out of range.
pub mod Quorum
use dual_optimistic_l.Base.{
  ℕ, zero, suc, ◌+◌, ◌-◌, ◌*◌, ◌/◌, ◌%◌, ◌^◌, Bool, true, false, Option, none, some, List, [], ◌∷◌,
  length, get_elem?, replicate, ltb, leb, ◌==◌, if◌then◌else◌, add64,
}

-- A host name is its code points.
pub record Authority : Type 0 where
  pub stake : ℕ
  pub hostname : List ℕ

pub record Committee : Type 0 where
  pub epoch : ℕ
  pub total_stake : ℕ
  pub quorum_threshold : ℕ
  pub validity_threshold : ℕ
  pub authorities : List Authority

-- `authorities.iter().map(|a| a.stake).sum()` on u64.
unfoldable pub stake_sum : List Authority → ℕ
stake_sum [] = 0
stake_sum (a ∷ rest) = add64 a.stake (stake_sum rest)

-- u64 subtraction.
abbrev pub sub64 : ℕ → ℕ → ℕ
sub64 a b = (a + 2 ^ 64 - b) % 2 ^ 64

unfoldable pub with_total : ℕ → List Authority → ℕ → Option Committee
with_total epoch authorities total =
    let fault = (total - 1) / 3 in
    let quorum = total - fault in
    if total == 0
    then none
    else if ltb total (sub64 ((2 * quorum) % 2 ^ 64) fault)
    then some (record {
      epoch = epoch;
      total_stake = total;
      quorum_threshold = quorum;
      validity_threshold = fault + 1;
      authorities = authorities;
    })
    else none

-- `Committee::new`
unfoldable pub new : ℕ → List Authority → Option Committee
unfolding with_total
new epoch authorities =
    if length authorities == 0
    then none
    else if ltb (length authorities) (2 ^ 32 - 1)
    then with_total epoch authorities (stake_sum authorities)
    else none

-- `Committee::stake`: a panic out of range.
unfoldable pub stake : Committee → ℕ → Option ℕ
stake c index = elim (get_elem? c.authorities index) [ none ↦ none | some a ↦ some a.stake ]

unfoldable pub reached_quorum : Committee → ℕ → Bool
reached_quorum c amount = leb c.quorum_threshold amount

unfoldable pub reached_validity : Committee → ℕ → Bool
reached_validity c amount = leb c.validity_threshold amount

abbrev pub size : Committee → ℕ
size c = length c.authorities

unfoldable pub is_valid_index : Committee → ℕ → Bool
is_valid_index c index = ltb index (size c)

unfoldable pub to_authority_index : Committee → ℕ → Option ℕ
to_authority_index c index = if ltb index (size c) then some (index % 2 ^ 32) else none
