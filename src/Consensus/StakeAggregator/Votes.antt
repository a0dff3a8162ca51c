-- ===== src/Consensus/StakeAggregator/Votes.antt =====
-- The stake of an aggregator is that of the authorities that voted, each counted once, and the
-- aggregator fires exactly when they hold a quorum.
use mathlib.Core.Path.{subst}
use dual_optimistic_l.Base.{
  ℕ, zero, suc, ◌+◌, ◌^◌, ◌≤◌, ◌<◌, ◌≡◌, refl, sym, ap, ◌∙◌, inl, inr, Bool, true, false, not, ◌&&◌,
  ◌||◌, some, List, [], ◌∷◌, length, get_elem?, ◌==◌, ==_iff, add64, arith, Bool-cases,
}
use dual_optimistic_l.Base.Key.{nat_key}
use dual_optimistic_l.Base.Set
use dual_optimistic_l.Base.Set.{contains-insert}
use dual_optimistic_l.Consensus.Committee.{Committee, Authority, stake}
use dual_optimistic_l.Consensus.Committee.Quorum.{total, weigh_from, weight, weigh-le-total}
use dual_optimistic_l.Consensus.StakeAggregator.{StakeAggregator, CommitteeThreshold, add}

pub weigh-ext :
    (i : ℕ) (xs : List Authority) (p q : ℕ → Bool)
    → ((j : ℕ) → p j ≡ q j)
    → weigh_from i xs p ≡ weigh_from i xs q
weigh-ext i [] p q h = refl
weigh-ext i (a ∷ rest) p q h = ground (arith, h i, weigh-ext (suc i) rest p q h)

pub weigh-none : (i : ℕ) (xs : List Authority) → weigh_from i xs (λ _. false) ≡ 0
weigh-none i [] = refl
weigh-none i (a ∷ rest) = omega (arith, weigh-none (suc i) rest)

pub weigh_below :
    (i k : ℕ) (xs : List Authority) (p : ℕ → Bool)
    → k < i
    → weigh_from i xs (λ j. j == k || p j) ≡ weigh_from i xs p
weigh_below i k [] p h = refl
weigh_below i k (a ∷ rest) p h = ground (arith, weigh_below (suc i) k rest p)

pub weigh_add :
    (i k n : ℕ) (xs : List Authority) (p : ℕ → Bool) {a : Authority}
    → n ≡ i + k
    → get_elem? xs k ≡ some a
    → p n ≡ false
    → weigh_from i xs (λ j. j == n || p j) ≡ weigh_from i xs p + a.stake
weigh_add i k n [] p s e h = cc
weigh_add i zero n (b ∷ rest) p {a} s e h =
    let t : n ≡ i = omega arith in
    let u : b ≡ a = cc in
    rw (t, u) (ground (arith, weigh_below (suc i) i rest p, subst (λ x. p x ≡ false) t h))
weigh_add i (suc k) n (b ∷ rest) p {a} s e h =
    ground (arith, weigh_add (suc i) k n rest p {a = a} (omega arith) e h)

-- The aggregator's stake is the weight of its votes.
abbrev pub Counts : Committee → StakeAggregator → Type 0
Counts c agg = agg.stake ≡ weight c (λ j. Set.contains j agg.votes)

get_elem?_below {ℓ} :
    {A : Type ℓ} (xs : List A) (i : ℕ) → i < length xs → (a : A) × (get_elem? xs i ≡ some a)
get_elem?_below [] i h = absurd (omega arith)
get_elem?_below (x ∷ xs) zero h = (x, refl)
get_elem?_below (x ∷ xs) (suc i) h = get_elem?_below xs i (omega arith)

pub stake_lem :
    (c : Committee) (v : ℕ) {a : Authority}
    → get_elem? c.authorities v ≡ some a
    → stake c v ≡ some a.stake
unfolding stake
stake_lem c v e = rw (e, stake)

-- Where the committee's total stake is below 2^64 and the aggregator holds the stake of its votes,
-- a vote of a known authority never fails. The votes grow by the voter, the stake is again that of
-- the votes, and the answer is yes exactly if the voter is new and the threshold is reached.
pub add_lem :
    (T : CommitteeThreshold) (c : Committee) (agg : StakeAggregator) (v : ℕ)
    → total c.authorities < 2 ^ 64
    → Counts c agg
    → v < length c.authorities
    → (agg' : StakeAggregator) × (fires : Bool) × (add T agg v c ≡ some (agg', fires))
      × Counts c agg'
      × ((j : ℕ) → Set.contains j agg'.votes ≡ (j == v || Set.contains j agg.votes))
      × (fires ≡ (not (Set.contains v agg.votes) && T.is_threshold c agg'.stake))
unfolding add
add_lem T c agg v h n l = elim (Bool-cases (Set.contains v agg.votes)) [
  | inl old ↦ (agg, false, rw (old, add), n, λ j. ground (arith, ==_iff j v, already j old), rw old)
  | inr fresh ↦
      let (a, e) = get_elem?_below c.authorities v l in
      let w : ℕ = weight c (λ j. j == v || Set.contains j agg.votes) in
      let count : w ≡ agg.stake + a.stake =
        weigh_add 0 v v c.authorities _ (omega arith) e fresh ∙ ap (λ t. t + a.stake) (sym n) in
      let room : w ≤ total c.authorities = weigh-le-total 0 c.authorities _ in
      let votes = Set.insert v agg.votes in
      let same : weight c (λ j. Set.contains j votes) ≡ w =
        weigh-ext 0 c.authorities _ _ (λ j. contains-insert j v agg.votes) in
      (
        record { votes = votes; stake = add64 agg.stake a.stake },
        T.is_threshold c (add64 agg.stake a.stake),
        rw (fresh, stake_lem c v e),
        omega arith,
        λ j. contains-insert j v agg.votes,
        rw fresh,
      )
]
  where
    already : (j : ℕ) → Set.contains v agg.votes ≡ true → j ≡ v → Set.contains j agg.votes ≡ true
    already j old e = rw e old

pub weigh_mono :
    (i : ℕ) (xs : List Authority) (p q : ℕ → Bool)
    → ((j : ℕ) → p j ≡ true → q j ≡ true)
    → weigh_from i xs p ≤ weigh_from i xs q
weigh_mono i [] p q h = omega arith
weigh_mono i (a ∷ rest) p q h = ground (arith, h i, weigh_mono (suc i) rest p q h)
