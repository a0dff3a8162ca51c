-- ===== src/Consensus/BaseCommitter/Support/Tally.antt =====
-- The loops over blames, votes and certificates decide whether distinct authorities hold a quorum.
use dual_optimistic_l.Base.{
  ℕ, ◌^◌, ◌<◌, ◌≡◌, refl, sym, ap, ◌∙◌, ◌⊎◌, inl, inr, Bool, true, false, Option, none, some, List,
  [], ◌∷◌, All, length, if◌then◌else◌, arith, Bool-cases,
}
use dual_optimistic_l.Base.Key.{nat_key}
use dual_optimistic_l.Base.Set
use dual_optimistic_l.Consensus.BaseCommitter.Support.{add_if, blames, blame_loop}
use dual_optimistic_l.Consensus.Committee.{Committee, reached_quorum}
use dual_optimistic_l.Consensus.Committee.Quorum.{total, weight}
use dual_optimistic_l.Consensus.StakeAggregator.{StakeAggregator, quorum_threshold, collect}
use dual_optimistic_l.Consensus.StakeAggregator
use dual_optimistic_l.Consensus.StakeAggregator.Collect.{voters, collect_lem}
use dual_optimistic_l.Consensus.StakeAggregator.Votes.{weigh-ext, weigh-none, Counts}
use dual_optimistic_l.Consensus.Types.{VerifiedBlock}

-- The authors of those that pass.
abbrev pub voters_of {ℓ} : {A : Type ℓ} → (A → Bool) → (A → ℕ) → List A → List ℕ
voters_of f author [] = []
voters_of f author (x ∷ xs) =
    if f x then author x ∷ voters_of f author xs else voters_of f author xs

-- The authorities of a list, each counted once, hold a quorum.
abbrev pub have_quorum : Committee → List ℕ → Bool
have_quorum c vs = reached_quorum c (weight c (λ j. Set.contains j vs))

-- The votes that pass, added until the aggregator fires.
unfoldable pub count_votes {ℓ} :
    {A : Type ℓ}
    → Committee
    → (A → Bool)
    → (A → ℕ)
    → StakeAggregator
    → List A
    → Option (StakeAggregator × Bool)
count_votes c f author agg [] = some (agg, false)
count_votes c f author agg (x ∷ xs) = elim (add_if c (f x) (author x) agg) [
  | none ↦ none
  | some t ↦ elim t.1 [ true ↦ some (t.0, true) | false ↦ count_votes c f author t.0 xs ]
]

count_votes-collect {ℓ} :
    {A : Type ℓ} (c : Committee) (f : A → Bool) (author : A → ℕ) (agg : StakeAggregator)
    (xs : List A)
    → count_votes c f author agg xs ≡ collect quorum_threshold c agg (voters_of f author xs)
unfolding count_votes collect add_if
count_votes-collect c f author agg [] = refl
count_votes-collect {A} c f author agg (x ∷ xs) = elim (Bool-cases (f x)) [
  | inl yes_ ↦
      rw (yes_, count_votes, add_if)
        (continue (StakeAggregator.add quorum_threshold agg (author x) c)
          (λ a. count_votes-collect c f author a xs))
  | inr no_ ↦ rw (no_, count_votes, add_if) (count_votes-collect c f author agg xs)
]
  where
    continue :
        (o : Option (StakeAggregator × Bool))
        → ((a : StakeAggregator)
            → count_votes c f author a xs ≡ collect quorum_threshold c a (voters_of f author xs))
        → ◌≡◌ {A = Option (StakeAggregator × Bool)}
            (elim o [
              | none ↦ none
              | some t ↦ elim t.1 [
                | true ↦ some (t.0, true)
                | false ↦ count_votes c f author t.0 xs
              ]
            ])
            (elim o [
              | none ↦ none
              | some t ↦ elim t.1 [
                | true ↦ some (t.0, true)
                | false ↦ collect quorum_threshold c t.0 (voters_of f author xs)
              ]
            ])
    continue none ih = refl
    continue (some (a, true)) ih = refl
    continue (some (a, false)) ih = ih a

empty-Counts : (c : Committee) → Counts c StakeAggregator.empty
unfolding Set.contains
empty-Counts c = sym (weigh-none 0 c.authorities)

same_voters : (vs : List ℕ) (j : ℕ) → voters StakeAggregator.empty vs j ≡ Set.contains j vs
unfolding Set.contains
same_voters vs j = refl

-- From an empty aggregator.
pub count_votes_lem {ℓ} :
    {A : Type ℓ} (c : Committee) (f : A → Bool) (author : A → ℕ) (xs : List A)
    → total c.authorities < 2 ^ 64
    → 0 < c.quorum_threshold
    → All (λ v. v < length c.authorities) (voters_of f author xs)
    → (agg : StakeAggregator) × (count_votes c f author StakeAggregator.empty xs
        ≡ some (agg, have_quorum c (voters_of f author xs)))
count_votes_lem c f author xs small positive known =
    let vs = voters_of f author xs in
    let (agg, e) = collect_lem c StakeAggregator.empty vs small (empty-Counts c) positive known in
    let w : weight c (voters StakeAggregator.empty vs) ≡ weight c (λ j. Set.contains j vs) =
      weigh-ext 0 c.authorities _ _ (same_voters vs) in
    (
      agg,
      count_votes-collect c f author StakeAggregator.empty xs
          ∙ e
          ∙ ap (λ x. some (agg, reached_quorum c x)) w,
    )

pub known_voters {ℓ} :
    {A : Type ℓ} (n : ℕ) (f : A → Bool) (author : A → ℕ) (xs : List A)
    → All (λ x. author x < n) xs
    → All (λ v. v < n) (voters_of f author xs)
known_voters n f author [] h = tt
known_voters n f author (x ∷ xs) h = elim (Bool-cases (f x)) [
  | inl yes_ ↦ rw yes_ (h.0, known_voters n f author xs h.1)
  | inr no_ ↦ rw no_ (known_voters n f author xs h.1)
]

-- A count that succeeds goes on or has fired.
pub count_inv {ℓ} :
    {A : Type ℓ} (c : Committee) (f : A → Bool) (author : A → ℕ) (agg : StakeAggregator) (x : A)
    (xs : List A) {agg' : StakeAggregator} {fires : Bool}
    → count_votes c f author agg (x ∷ xs) ≡ some (agg', fires)
    → ((t : StakeAggregator) × (add_if c (f x) (author x) agg ≡ some (t, true)) × (fires ≡ true))
      ⊎ ((t : StakeAggregator) × (add_if c (f x) (author x) agg ≡ some (t, false))
          × (count_votes c f author t xs ≡ some (agg', fires)))
unfolding count_votes
count_inv c f author agg x xs {agg'} {fires} e = split (add_if c (f x) (author x) agg) e
  where
    split :
        (o : Option (StakeAggregator × Bool))
        → ◌≡◌ {A = Option (StakeAggregator × Bool)}
            (elim o [
              | none ↦ none
              | some t ↦ elim t.1 [
                | true ↦ some (t.0, true)
                | false ↦ count_votes c f author t.0 xs
              ]
            ])
            (some (agg', fires))
        → ((t : StakeAggregator) × (o ≡ some (t, true)) × (fires ≡ true))
          ⊎ ((t : StakeAggregator) × (o ≡ some (t, false))
              × (count_votes c f author t xs ≡ some (agg', fires)))
    split none h = absurd (ground arith)
    split (some (t, true)) h = inl (t, refl, ground arith)
    split (some (t, false)) h = inr (t, refl, h)

pub blame_loop-count :
    (c : Committee) (leader : ℕ) (agg : StakeAggregator) (bs : List VerifiedBlock)
    {agg' : StakeAggregator} {fires : Bool}
    → count_votes c (blames leader) (λ b. b.author) agg bs ≡ some (agg', fires)
    → blame_loop c leader agg bs ≡ some fires
unfolding blame_loop count_votes
blame_loop-count c leader agg [] e = ground arith
blame_loop-count c leader agg (b ∷ bs) e =
    elim (count_inv c (blames leader) (λ b. b.author) agg b bs e) [
      | inl (t, added, fired) ↦ rw (added, fired, blame_loop)
      | inr (t, added, more) ↦ rw (added, blame_loop) (blame_loop-count c leader t bs more)
    ]
