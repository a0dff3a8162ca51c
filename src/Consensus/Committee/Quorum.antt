-- ===== src/Consensus/Committee/Quorum.antt =====
-- The thresholds of a committee, and why two quorums meet.
use dual_optimistic_l.Base.{
  ℕ, suc, ◌+◌, ◌-◌, ◌*◌, ◌/◌, ◌%◌, ◌^◌, ◌≤◌, ◌<◌, ◌≡◌, ◌≢◌, refl, Bool, true, false, ◌&&◌, ◌||◌,
  some, List, [], ◌∷◌, length, leb→le, le→leb, lt→ltb, ◌==◌, if◌then◌else◌, arith,
}
use dual_optimistic_l.Consensus.Committee.{
  Authority, Committee, stake_sum, with_total, sub64, new, reached_quorum, reached_validity,
}

-- The stake of all authorities, as a plain number.
abbrev pub total : List Authority → ℕ
total [] = 0
total (a ∷ rest) = a.stake + total rest

stake_sum-total : (xs : List Authority) → total xs < 2 ^ 64 → stake_sum xs ≡ total xs
unfolding stake_sum
stake_sum-total [] h = refl
stake_sum-total (a ∷ rest) h = omega (arith, stake_sum-total rest (omega arith))

abbrev pub fault_tolerance : List Authority → ℕ
fault_tolerance xs = (total xs - 1) / 3

quorum_holds :
    (t : ℕ) → 0 < t → t < 2 ^ 63 → t < sub64 ((2 * (t - (t - 1) / 3)) % 2 ^ 64) ((t - 1) / 3)
quorum_holds t p h = omega arith

with_total-some :
    (epoch : ℕ) (xs : List Authority) (t : ℕ)
    → 0 < t
    → t < 2 ^ 63
    → with_total epoch xs t
      ≡ some (record {
        epoch = epoch;
        total_stake = t;
        quorum_threshold = t - (t - 1) / 3;
        validity_threshold = (t - 1) / 3 + 1;
        authorities = xs;
      })
unfolding with_total
with_total-some epoch xs t p h =
    let z : (t == 0) ≡ false = ground arith in rw (z, lt→ltb _ _ (quorum_holds t p h))

new_unfold :
    (epoch : ℕ) (xs : List Authority)
    → xs ≢ []
    → length xs < 2 ^ 32 - 1
    → new epoch xs ≡ with_total epoch xs (stake_sum xs)
unfolding new
new_unfold epoch [] e l = absurd (e refl)
new_unfold epoch (a ∷ rest) e l =
    let z : (length (a ∷ rest) == 0) ≡ false = ground arith in rw (z, lt→ltb _ _ l)

-- What holds of every committee that `new` returns.
pub new_inv :
    (epoch : ℕ) (xs : List Authority) {c : Committee}
    → new epoch xs ≡ some c
    → let t = stake_sum xs in
      (0 < t)
      × (c.authorities ≡ xs)
      × (c.quorum_threshold ≡ t - (t - 1) / 3)
      × (c.validity_threshold ≡ (t - 1) / 3 + 1)
unfolding new
new_inv epoch xs e = ground arith

-- With at least one authority, fewer than u32::MAX of them, and a total stake that is not zero and
-- stays below 2^63, `new` returns a committee: its quorum assertion cannot fail. The committee has
-- these authorities, this epoch and this total stake; the faults that are tolerated are the
-- largest number below a third of the stake; a quorum is all stake but theirs, and validity is one
-- more than theirs.
pub new_lem :
    (epoch : ℕ) (xs : List Authority)
    → xs ≢ []
    → length xs < 2 ^ 32 - 1
    → 0 < total xs
    → total xs < 2 ^ 63
    → (c : Committee) × (new epoch xs ≡ some c)
      × (c.authorities ≡ xs)
      × (c.epoch ≡ epoch)
      × (c.total_stake ≡ total xs)
      × (c.quorum_threshold + fault_tolerance xs ≡ total xs)
      × (c.validity_threshold ≡ fault_tolerance xs + 1)
      × (3 * fault_tolerance xs < total xs)
      × (total xs ≤ 3 * fault_tolerance xs + 3)
unfolding new
new_lem epoch xs e l p h = (
  record {
    epoch = epoch;
    total_stake = total xs;
    quorum_threshold = total xs - fault_tolerance xs;
    validity_threshold = fault_tolerance xs + 1;
    authorities = xs;
  },
  rw (new_unfold epoch xs e l, stake_sum-total xs (omega arith))
      (with_total-some epoch xs (total xs) p h),
  refl,
  refl,
  refl,
  omega arith,
  refl,
  omega arith,
  omega arith,
)

-- The stake of the authorities from index `i` on that pass a test on their index.
abbrev pub weigh_from : ℕ → List Authority → (ℕ → Bool) → ℕ
weigh_from i [] p = 0
weigh_from i (a ∷ rest) p = (if p i then a.stake else 0) + weigh_from (suc i) rest p

abbrev pub weight : Committee → (ℕ → Bool) → ℕ
weight c p = weigh_from 0 c.authorities p

inclusion_exclusion :
    (i : ℕ) (xs : List Authority) (p q : ℕ → Bool)
    → weigh_from i xs p + weigh_from i xs q
      ≡ weigh_from i xs (λ j. p j || q j) + weigh_from i xs (λ j. p j && q j)
inclusion_exclusion i [] p q = refl
inclusion_exclusion i (a ∷ rest) p q = ground (arith, inclusion_exclusion (suc i) rest p q)

pub weigh-le-total : (i : ℕ) (xs : List Authority) (p : ℕ → Bool) → weigh_from i xs p ≤ total xs
weigh-le-total i [] p = omega arith
weigh-le-total i (a ∷ rest) p = ground (arith, weigh-le-total (suc i) rest p)

-- In a committee that `new` returns for authorities with a total stake below 2^63, any two sets of
-- authorities that each hold a quorum share more stake than may be faulty: what they share reaches
-- the validity threshold.
pub quorum_intersection :
    (epoch : ℕ) (xs : List Authority) {c : Committee} (p q : ℕ → Bool)
    → total xs < 2 ^ 63
    → new epoch xs ≡ some c
    → reached_quorum c (weight c p) ≡ true
    → reached_quorum c (weight c q) ≡ true
    → reached_validity c (weight c (λ j. p j && q j)) ≡ true
unfolding new reached_quorum reached_validity
quorum_intersection epoch xs {c} p q h e v w =
    let (pos, same, quorum, validity) = new_inv epoch xs e in
    let sum : stake_sum xs ≡ total xs = stake_sum-total xs (omega arith) in
    let room : weight c (λ j. p j || q j) ≤ total xs =
      rw (← same) (weigh-le-total 0 c.authorities (λ j. p j || q j)) in
    le→leb _ _ (omega (arith, leb→le _ _ v, leb→le _ _ w, inclusion_exclusion 0 c.authorities p q))
