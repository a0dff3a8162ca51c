-- ===== src/Consensus/BaseCommitter/Support/Ends.antt =====
-- Votes, certificates and support are settled within the fuel.
use dual_optimistic_l.Base.{
  ℕ, zero, suc, ◌+◌, length, ◌<◌, ◌≡◌, refl, ap, inl, inr, Bool, true, false, Option, none, some,
  List, [], ◌∷◌, All, ltb, leb, arith, Option-cases, if_intro,
}
use dual_optimistic_l.Base.Map
use dual_optimistic_l.Base.Map.{Map}
use dual_optimistic_l.Consensus.BaseCommitter.Support.{
  or_panic, first_at, found_or, search_weak, find_from, find_supported_block, is_reference, is_vote,
  vote_of, cached_vote, add_if, certify, is_certificate, support_loop, enough_leader_support,
}
use dual_optimistic_l.Consensus.Committee.{Committee}
use dual_optimistic_l.Consensus.DagState.{
  DagState, get_block, gc_round, get_uncommitted_blocks_at_round,
}
use dual_optimistic_l.Consensus.DagState.Ancestors.Ascending.{IsDescending, get_block-lower}
use dual_optimistic_l.Consensus.DagState.Outcome.{
  Outcome, done, panic, ◌>>=◌, has_ended, Ended, >>=-has_ended,
}
use dual_optimistic_l.Consensus.DagState.Store.{get_block-reference}
use dual_optimistic_l.Consensus.StakeAggregator
use dual_optimistic_l.Consensus.StakeAggregator.{StakeAggregator}
use dual_optimistic_l.Consensus.Types.{BlockRef, Slot, VerifiedBlock, reference, ref_key, slot_of}

pub or_panic-Ended {ℓ} : {A : Type ℓ} (o : Option A) → has_ended (or_panic o) ≡ true
or_panic-Ended none = refl
or_panic-Ended (some a) = refl

found_or-Ended :
    (r : Option BlockRef) (more : Outcome (Option BlockRef)) → Ended more → Ended (found_or r more)
found_or-Ended none more h = h
found_or-Ended (some a) more h = refl

search_weak-Ended :
    (find : VerifiedBlock → Outcome (Option BlockRef)) (s : DagState) (p : Slot) (n : ℕ)
    (as_ : List BlockRef)
    → IsDescending s
    → ((d : VerifiedBlock) (m : ℕ) → m < n → All (λ a. a.round < m) d.ancestors → Ended (find d))
    → All (λ a. a.round < n) as_
    → Ended (search_weak find s p as_)
unfolding search_weak
search_weak-Ended find s p n [] k f h = refl
search_weak-Ended find s p n (a ∷ rest) k f h =
    let more = search_weak find s p rest in
    let ih = search_weak-Ended find s p n rest k f h.1 in
    if_intro Ended (leb a.round p.round) more
      (elim (get_block s a) [ none ↦ panic | some b ↦ find b >>= λ r. found_or r more ]) (λ _. ih)
      (λ _. elim (Option-cases (get_block s a)) [
        | inl e ↦ rw e
        | inr (b, e) ↦ rw e (
            >>=-has_ended (find b) (λ r. found_or r more)
              (f b a.round h.0 (get_block-lower s a k e)) (λ r _. found_or-Ended r more ih))
      ])

find_from-Ended :
    (fuel n : ℕ) (s : DagState) (p : Slot) (from : VerifiedBlock)
    → IsDescending s
    → n < fuel
    → All (λ a. a.round < n) from.ancestors
    → Ended (find_from fuel s p from)
unfolding find_from
find_from-Ended zero n s p from k l h = absurd (omega arith)
find_from-Ended (suc fuel) n s p from k l h =
    if_intro Ended (ltb from.round p.round) (done none)
      (elim (first_at p from.ancestors) [
        | some a ↦ done (some a)
        | none ↦ search_weak (find_from fuel s p) s p from.ancestors
      ])
      (λ _. refl)
      (λ _. elim (Option-cases (first_at p from.ancestors)) [
        | inr (a, e) ↦ rw e
        | inl e ↦ rw e (
            search_weak-Ended (find_from fuel s p) s p n from.ancestors k
              (λ d m below lower. find_from-Ended fuel m s p d k (omega arith) lower) h)
      ])

is_vote-Ended :
    (s : DagState) (b l : VerifiedBlock)
    → IsDescending s
    → All (λ a. a.round < b.round) b.ancestors
    → Ended (is_vote s b l)
unfolding is_vote find_supported_block
is_vote-Ended s b l k h =
    let fuel = suc (b.round + (length s.blocks + length s.genesis)) in
    >>=-has_ended (find_from fuel s (slot_of (reference l)) b)
      (λ r. done (is_reference (reference l) r))
      (find_from-Ended fuel b.round s (slot_of (reference l)) b k (omega arith) h) (λ _ _. refl)

vote_of-Ended :
    (s : DagState) (l : VerifiedBlock) (a : BlockRef) → IsDescending s → Ended (vote_of s l a)
unfolding vote_of
vote_of-Ended s l a k = elim (Option-cases (get_block s a)) [
  | inl e ↦
      rw (e, vote_of)
        (if_intro Ended (leb a.round (gc_round s)) (done false) panic (λ _. refl) (λ _. refl))
  | inr (b, e) ↦
      let same : b.round ≡ a.round = ap (λ r. r.round) (get_block-reference s a k.keyed e) in
      rw (e, vote_of) (is_vote-Ended s b l k (rw same (get_block-lower s a k e)))
]

cached_vote-Ended :
    (s : DagState) (l : VerifiedBlock) (cache : Map BlockRef Bool) (a : BlockRef)
    → IsDescending s
    → Ended (cached_vote s l cache a)
unfolding cached_vote
cached_vote-Ended s l cache a k = elim (Option-cases (Map.get a cache)) [
  | inr (v, e) ↦ rw (e, cached_vote)
  | inl e ↦
      rw (e, cached_vote)
        (>>=-has_ended (vote_of s l a) (λ v. done (v, Map.insert a v cache)) (vote_of-Ended s l a k)
          (λ _ _. refl))
]

certify-Ended :
    (c : Committee) (s : DagState) (l : VerifiedBlock) (cache : Map BlockRef Bool)
    (agg : StakeAggregator) (as_ : List BlockRef)
    → IsDescending s
    → Ended (certify c s l cache agg as_)
unfolding certify
certify-Ended c s l cache agg [] k = refl
certify-Ended c s l cache agg (a ∷ rest) k =
    >>=-has_ended (cached_vote s l cache a)
      (λ (v : Bool × Map BlockRef Bool). or_panic (add_if c v.0 a.author agg) >>= λ t. elim t.1 [
        | true ↦ done (true, v.1)
        | false ↦ certify c s l v.1 t.0 rest
      ])
      (cached_vote-Ended s l cache a k)
      (λ v _.
        >>=-has_ended (or_panic (add_if c v.0 a.author agg))
          (λ (t : StakeAggregator × Bool). elim t.1 [
            | true ↦ done (true, v.1)
            | false ↦ certify c s l v.1 t.0 rest
          ])
          (or_panic-Ended (add_if c v.0 a.author agg))
          (λ t _.
            elim t.1
              as (λ b. Ended (elim b as (λ _. Outcome (Bool × Map BlockRef Bool)) [
                | true ↦ done (true, v.1)
                | false ↦ certify c s l v.1 t.0 rest
              ])) [ true ↦ refl | false ↦ certify-Ended c s l v.1 t.0 rest k ]))

pub is_certificate-Ended :
    (c : Committee) (s : DagState) (b l : VerifiedBlock) (cache : Map BlockRef Bool)
    → IsDescending s
    → has_ended (is_certificate c s b l cache) ≡ true
unfolding is_certificate
is_certificate-Ended c s b l cache k = certify-Ended c s l cache StakeAggregator.empty b.ancestors k

support_loop-Ended :
    (c : Committee) (s : DagState) (l : VerifiedBlock) (cache : Map BlockRef Bool)
    (agg : StakeAggregator) (bs : List VerifiedBlock)
    → IsDescending s
    → Ended (support_loop c s l cache agg bs)
unfolding support_loop
support_loop-Ended c s l cache agg [] k = refl
support_loop-Ended c s l cache agg (b ∷ rest) k =
    >>=-has_ended (is_certificate c s b l cache)
      (λ (r : Bool × Map BlockRef Bool). or_panic (add_if c r.0 b.author agg) >>= λ t. elim t.1 [
        | true ↦ done true
        | false ↦ support_loop c s l r.1 t.0 rest
      ])
      (is_certificate-Ended c s b l cache k)
      (λ r _.
        >>=-has_ended (or_panic (add_if c r.0 b.author agg))
          (λ (t : StakeAggregator × Bool). elim t.1 [
            | true ↦ done true
            | false ↦ support_loop c s l r.1 t.0 rest
          ])
          (or_panic-Ended (add_if c r.0 b.author agg))
          (λ t _.
            elim t.1
              as (λ b. Ended (elim b as (λ _. Outcome Bool) [
                | true ↦ done true
                | false ↦ support_loop c s l r.1 t.0 rest
              ])) [ true ↦ refl | false ↦ support_loop-Ended c s l r.1 t.0 rest k ]))

pub enough_leader_support-Ended :
    (c : Committee) (s : DagState) (round : ℕ) (l : VerifiedBlock)
    → IsDescending s
    → has_ended (enough_leader_support c s round l) ≡ true
unfolding enough_leader_support
enough_leader_support-Ended c s round l k =
    >>=-has_ended (or_panic (get_uncommitted_blocks_at_round s round))
      (λ bs. support_loop c s l [] StakeAggregator.empty bs)
      (or_panic-Ended (get_uncommitted_blocks_at_round s round))
      (λ bs _. support_loop-Ended c s l [] StakeAggregator.empty bs k)
