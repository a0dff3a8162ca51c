-- ===== src/Consensus/ThresholdClock/Rounds.antt =====
-- How the clock moves.
use dual_optimistic_l.Base.{
  ℕ, suc, ◌+◌, ◌^◌, ◌≤◌, ◌<◌, ◌≡◌, ◌⊎◌, refl, sym, ◌∙◌, inl, inr, Bool, true, false, ◌||◌, Option,
  none, some, List, [], ◌∷◌, All, length, ltb, ◌==◌, if◌then◌else◌, arith, Option-cases, map,
  lt→ltb,
}
use dual_optimistic_l.Base.Key.{nat_key}
use dual_optimistic_l.Base.Set
use dual_optimistic_l.Consensus.Committee.{Committee, reached_quorum}
use dual_optimistic_l.Consensus.Committee.Quorum.{total, weight}
use dual_optimistic_l.Consensus.StakeAggregator.{
  StakeAggregator, quorum_threshold, empty, add, clear, collect,
}
use dual_optimistic_l.Consensus.StakeAggregator.Votes.{Counts, weigh-ext, weigh-none, add_lem}
use dual_optimistic_l.Consensus.StakeAggregator.Collect.{
  voters, collect_lem, collect_stop, collect_more,
}
use dual_optimistic_l.Consensus.Types.{BlockRef}
use dual_optimistic_l.Consensus.ThresholdClock.{ThresholdClock, add_current, catch_up, add_block}

-- For a block below the last u32 round, whenever the call returns: the clock never goes back, the
-- answer says exactly whether it moved on, and it stands where it stood, at the block's round, or
-- at the round behind it.
pub add_block-round :
    (c : Committee) (clock clock' : ThresholdClock) (b : BlockRef) {advanced : Bool}
    → b.round + 1 < 2 ^ 32
    → add_block c clock b ≡ some (clock', advanced)
    → (clock.round ≤ clock'.round)
      × (advanced ≡ ltb clock.round clock'.round)
      × ((clock'.round ≡ clock.round) ⊎ (clock'.round ≡ b.round) ⊎ (clock'.round ≡ b.round + 1))
unfolding add_block add_current catch_up
add_block-round c clock clock' b h e = ground arith

-- `DagState::accept_blocks` shows the clock one block after another.
unfoldable pub add_all : Committee → ThresholdClock → List BlockRef → Option ThresholdClock
add_all c clock [] = some clock
add_all c clock (b ∷ rest) = elim (add_block c clock b) [
  | none ↦ none
  | some r ↦ add_all c r.0 rest
]

abbrev authors : List BlockRef → List ℕ
authors = map (λ b. b.author)

add_all_step :
    (c : Committee) (clock : ThresholdClock) {clock' : ThresholdClock} {f : Bool} (b : BlockRef)
    (rest : List BlockRef)
    → add_block c clock b ≡ some (clock', f)
    → add_all c clock (b ∷ rest) ≡ add_all c clock' rest
unfolding add_all
add_all_step c clock b rest e = rw (e, add_all)

add_block_late :
    (c : Committee) (clock : ThresholdClock) (b : BlockRef)
    → b.round < clock.round
    → add_block c clock b ≡ some (clock, false)
unfolding add_block
add_block_late c clock b h = rw (lt→ltb _ _ h)

add_all_late :
    (c : Committee) (clock : ThresholdClock) (bs : List BlockRef)
    → All (λ b. b.round < clock.round) bs
    → add_all c clock bs ≡ some clock
unfolding add_all
add_all_late c clock [] h = refl
add_all_late c clock (b ∷ rest) h =
    add_all_step c clock b rest (add_block_late c clock b h.0) ∙ add_all_late c clock rest h.1

All-late : (r : ℕ) (bs : List BlockRef) → All (λ b. b.round ≡ r) bs → All (λ b. b.round < suc r) bs
All-late r [] h = tt
All-late r (b ∷ rest) h = (omega arith, All-late r rest h.1)

add_current_fires :
    (c : Committee) (clock : ThresholdClock) (b : BlockRef) {agg : StakeAggregator}
    → b.round ≡ clock.round
    → clock.round + 1 < 2 ^ 32
    → add quorum_threshold clock.aggregator b.author c ≡ some (agg, true)
    → add_block c clock b ≡ some (record { aggregator = clear agg; round = suc clock.round }, true)
unfolding add_block add_current
add_current_fires c clock b s h e = ground arith

add_current_waits :
    (c : Committee) (clock : ThresholdClock) (b : BlockRef) {agg : StakeAggregator}
    → b.round ≡ clock.round
    → add quorum_threshold clock.aggregator b.author c ≡ some (agg, false)
    → add_block c clock b ≡ some (record { aggregator = agg; round = clock.round }, false)
unfolding add_block add_current
add_current_waits c clock b s e = ground arith

-- The clock's own loop and the loop over the aggregator agree.
add_all-collect :
    (c : Committee) (clock : ThresholdClock) (bs : List BlockRef) {agg : StakeAggregator}
    {fires : Bool}
    → clock.round + 1 < 2 ^ 32
    → All (λ b. b.round ≡ clock.round) bs
    → collect quorum_threshold c clock.aggregator (authors bs) ≡ some (agg, fires)
    → (clock' : ThresholdClock) × (add_all c clock bs ≡ some clock')
      × (clock'.round ≡ (if fires then clock.round + 1 else clock.round))
unfolding add_all collect
add_all-collect c clock [] {agg} {fires} h a e =
    let f : fires ≡ false = ground arith in (clock, refl, rw f)
add_all-collect c clock (b ∷ rest) {agg} {fires} h a e =
    elim (Option-cases (add quorum_threshold clock.aggregator b.author c)) [
      | inl panic ↦ absurd (blocked (λ r. rw (panic, collect)) e)
      | inr ((next, true), s) ↦
          let f : true ≡ fires =
            snd_eq (sym (collect_stop quorum_threshold c _ b.author (authors rest) s) ∙ e) in
          (
            record { aggregator = clear next; round = suc clock.round },
            add_all_step c clock b rest (add_current_fires c clock b a.0 h s)
                ∙ add_all_late c _ rest (All-late clock.round rest a.1),
            rw (← f) (omega arith),
          )
      | inr ((next, false), s) ↦
          let (clock', r, t) =
            add_all-collect c (record { aggregator = next; round = clock.round }) rest h a.1
              (sym (collect_more quorum_threshold c _ b.author (authors rest) s) ∙ e) in
          (clock', add_all_step c clock b rest (add_current_waits c clock b a.0 s) ∙ r, t)
    ]
  where
    blocked :
        {o : Option (StakeAggregator × Bool)}
        → ((r : Unit {0}) → o ≡ none)
        → o ≡ some (agg, fires)
        → ⊥
    blocked h e = let k = h tt in cc

    snd_eq :
        {x : StakeAggregator} {f : Bool}
        → ◌≡◌ {A = Option (StakeAggregator × Bool)} (some (x, f)) (some (agg, fires))
        → f ≡ fires
    snd_eq e = ground arith

All-authors :
    (n : ℕ) (bs : List BlockRef) → All (λ b. b.author < n) bs → All (λ v. v < n) (authors bs)
All-authors n [] h = tt
All-authors n (b ∷ rest) h = (h.0, All-authors n rest h.1)

-- Where the committee's total stake is below 2^64, a clock below the last u32 round that holds the
-- stake of its votes and less than a quorum, and is shown blocks of its current round by known
-- authorities, in any order and with repeated authors, moves to the next round exactly if the
-- authors counted before and those of the blocks, each once, hold a quorum; otherwise it stays.
pub add_all-round :
    (c : Committee) (clock : ThresholdClock) (bs : List BlockRef)
    → total c.authorities < 2 ^ 64
    → Counts c clock.aggregator
    → clock.aggregator.stake < c.quorum_threshold
    → clock.round + 1 < 2 ^ 32
    → All (λ b. b.round ≡ clock.round) bs
    → All (λ b. b.author < length c.authorities) bs
    → (clock' : ThresholdClock) × (add_all c clock bs ≡ some clock')
      × (clock'.round ≡ (
          if reached_quorum c (weight c (voters clock.aggregator (map (λ b. b.author) bs)))
          then clock.round + 1
          else clock.round))
add_all-round c clock bs h n q r a k =
    let (agg, e) = collect_lem c clock.aggregator (authors bs) h n q (All-authors _ bs k) in
    add_all-collect c clock bs r a e

add_known :
    (c : Committee) (agg : StakeAggregator) (v : ℕ)
    → Set.contains v agg.votes ≡ true
    → add quorum_threshold agg v c ≡ some (agg, false)
unfolding add
add_known c agg v h = rw h

catch_up_fires :
    (c : Committee) (clock : ThresholdClock) (b : BlockRef) {agg : StakeAggregator}
    → clock.round < b.round
    → b.round + 1 < 2 ^ 32
    → add quorum_threshold empty b.author c ≡ some (agg, true)
    → add_block c clock b ≡ some (record { aggregator = agg; round = b.round + 1 }, true)
unfolding add_block catch_up clear
catch_up_fires c clock b h k e = ground arith

lone_voter : (a j : ℕ) → (j == a || Set.contains j []) ≡ (j == a)
unfolding Set.contains
lone_voter a j = ground arith

-- A single vote on an empty aggregator fires if its authority holds a quorum.
lone_quorum :
    (c : Committee) (a : ℕ)
    → total c.authorities < 2 ^ 64
    → a < length c.authorities
    → reached_quorum c (weight c (λ j. j == a)) ≡ true
    → (agg : StakeAggregator) × (add quorum_threshold empty a c ≡ some (agg, true))
      × (Set.contains a agg.votes ≡ true)
unfolding Set.contains
lone_quorum c a h l w =
    let (agg, fires, e, n, grown, f) =
      add_lem quorum_threshold c empty a h (sym (weigh-none 0 c.authorities)) l in
    let s : agg.stake ≡ weight c (λ j. j == a) =
      n ∙ weigh-ext 0 c.authorities _ _ (λ j. grown j ∙ lone_voter a j) in
    let t : fires ≡ true = f ∙ rw (s, w) in
    let self : (a == a) ≡ true = ground arith in (agg, rw t at e, grown a ∙ rw self)

-- Where the committee's total stake is below 2^64: a block from a later round, below the last u32
-- round, whose author alone holds a quorum moves the clock to the round behind it, but its author
-- stays counted: when that author's block of the new round comes, the clock does not move,
-- although the block alone is a quorum of that round.
pub catch_up_counts_twice :
    (c : Committee) (clock : ThresholdClock) (r a d e : ℕ)
    → total c.authorities < 2 ^ 64
    → a < length c.authorities
    → reached_quorum c (weight c (λ j. j == a)) ≡ true
    → clock.round < r
    → r + 1 < 2 ^ 32
    → (clock' : ThresholdClock) × (add_block c clock (record { round = r; author = a; digest = d })
        ≡ some (clock', true))
      × (clock'.round ≡ r + 1)
      × (add_block c clock' (record { round = r + 1; author = a; digest = e })
          ≡ some (clock', false))
catch_up_counts_twice c clock r a d e h l w later b =
    let (agg, fired, known) = lone_quorum c a h l w in
    (
      record { aggregator = agg; round = r + 1 },
      catch_up_fires c clock _ later b fired,
      refl,
      add_current_waits c (record { aggregator = agg; round = r + 1 }) _ refl
          (add_known c agg a known),
    )
