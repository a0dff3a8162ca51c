-- ===== src/Consensus/Node/Events.antt =====
-- The order of the events that a node sends.
use mathlib.Core.Path.{subst}
use dual_optimistic_l.Base.{
  ℕ, ◌-◌, ◌==◌, ◌&&◌, ◌<◌, ◌≤◌, ◌≡◌, refl, sym, Bool, true, false, List, [], ◌∷◌, ◌++◌, ltb,
  if◌then◌else◌, add32, arith, if_intro,
}
use dual_optimistic_l.Consensus.BaseCommitter.Support.{or_panic}
use dual_optimistic_l.Consensus.Committee
use dual_optimistic_l.Consensus.Committee.{Committee}
use dual_optimistic_l.Consensus.DagState.{DagState, gc_round}
use dual_optimistic_l.Consensus.DagState.Causal.{get_causal_blocks}
use dual_optimistic_l.Consensus.DagState.Outcome.{Outcome, done, ◌>>=◌, >>=-eq-done}
use dual_optimistic_l.Consensus.Node.{
  to_shared_block_ref, transactions_of, soft_event, check_ancestor, check_ancestors,
  check_soft_commit, check_soft_commits,
}
use dual_optimistic_l.Consensus.SoftCommit.{
  SoftCommitTracker, add_vote, is_leader_round, leader_at_round,
}
use dual_optimistic_l.Consensus.Types.{BlockRef, VerifiedBlock}
use dual_optimistic_l.Shared.{ConsensusEvent}

-- The hard commits count up from the index given, and their leaders' rounds ascend from the round
-- given; soft commits may stand anywhere.
abbrev pub InOrder : ℕ → ℕ → List ConsensusEvent → Type 0
InOrder index low [] = Unit
InOrder index low (ConsensusEvent.soft_commit r l txs ∷ rest) = InOrder index low rest
InOrder index low (ConsensusEvent.hard_commit d ∷ rest) =
    (d.commit_index ≡ add32 index 1)
    × (low < d.leader.round)
    × InOrder d.commit_index d.leader.round rest

-- The index and the round after the events.
abbrev pub last_index : ℕ → List ConsensusEvent → ℕ
last_index index [] = index
last_index index (ConsensusEvent.soft_commit r l txs ∷ rest) = last_index index rest
last_index index (ConsensusEvent.hard_commit d ∷ rest) = last_index d.commit_index rest

abbrev pub last_round : ℕ → List ConsensusEvent → ℕ
last_round low [] = low
last_round low (ConsensusEvent.soft_commit r l txs ∷ rest) = last_round low rest
last_round low (ConsensusEvent.hard_commit d ∷ rest) = last_round d.leader.round rest

pub InOrder-lower :
    (index low low' : ℕ) (xs : List ConsensusEvent)
    → low' ≤ low
    → InOrder index low xs
    → InOrder index low' xs
InOrder-lower index low low' [] l h = tt
InOrder-lower index low low' (ConsensusEvent.soft_commit r p txs ∷ rest) l h =
    InOrder-lower index low low' rest l h
InOrder-lower index low low' (ConsensusEvent.hard_commit d ∷ rest) l (i, up, h) =
    (i, omega (arith, up), h)

pub InOrder-append :
    (index low low' : ℕ) (xs ys : List ConsensusEvent)
    → InOrder index low xs
    → last_round low xs ≤ low'
    → InOrder (last_index index xs) low' ys
    → InOrder index low (xs ++ ys)
InOrder-append index low low' [] ys h l k = InOrder-lower index low' low ys l k
InOrder-append index low low' (ConsensusEvent.soft_commit r p txs ∷ rest) ys h l k =
    InOrder-append index low low' rest ys h l k
InOrder-append index low low' (ConsensusEvent.hard_commit d ∷ rest) ys (i, up, h) l k =
    (i, up, InOrder-append d.commit_index d.leader.round low' rest ys h l k)

pub last_index-append :
    (index : ℕ) (xs ys : List ConsensusEvent)
    → last_index index (xs ++ ys) ≡ last_index (last_index index xs) ys
last_index-append index [] ys = refl
last_index-append index (ConsensusEvent.soft_commit r p txs ∷ rest) ys =
    last_index-append index rest ys
last_index-append index (ConsensusEvent.hard_commit d ∷ rest) ys =
    last_index-append d.commit_index rest ys

pub last_round-append :
    (low : ℕ) (xs ys : List ConsensusEvent)
    → last_round low (xs ++ ys) ≡ last_round (last_round low xs) ys
last_round-append low [] ys = refl
last_round-append low (ConsensusEvent.soft_commit r p txs ∷ rest) ys = last_round-append low rest ys
last_round-append low (ConsensusEvent.hard_commit d ∷ rest) ys =
    last_round-append d.leader.round rest ys

pub last_round_mono :
    (low low' : ℕ) (xs : List ConsensusEvent) → low ≤ low' → last_round low xs ≤ last_round low' xs
last_round_mono low low' [] l = l
last_round_mono low low' (ConsensusEvent.soft_commit r p txs ∷ rest) l =
    last_round_mono low low' rest l
last_round_mono low low' (ConsensusEvent.hard_commit d ∷ rest) l = omega arith

-- Only soft commits.
abbrev pub AreSoft : List ConsensusEvent → Type 0
AreSoft [] = Unit
AreSoft (ConsensusEvent.soft_commit r l txs ∷ rest) = AreSoft rest
AreSoft (ConsensusEvent.hard_commit d ∷ rest) = ⊥

AreSoft-append : (xs ys : List ConsensusEvent) → AreSoft xs → AreSoft ys → AreSoft (xs ++ ys)
AreSoft-append [] ys h k = k
AreSoft-append (ConsensusEvent.soft_commit r l txs ∷ rest) ys h k = AreSoft-append rest ys h k
AreSoft-append (ConsensusEvent.hard_commit d ∷ rest) ys h k = absurd h

pub AreSoft-InOrder :
    (index low : ℕ) (xs : List ConsensusEvent)
    → AreSoft xs
    → InOrder index low xs × (last_index index xs ≡ index) × (last_round low xs ≡ low)
AreSoft-InOrder index low [] h = (tt, refl, refl)
AreSoft-InOrder index low (ConsensusEvent.soft_commit r l txs ∷ rest) h =
    AreSoft-InOrder index low rest h
AreSoft-InOrder index low (ConsensusEvent.hard_commit d ∷ rest) h = absurd h

abbrev Result : Type 0
Result = SoftCommitTracker × List ConsensusEvent

result_inv :
    (x : Result) (t : SoftCommitTracker) (es : List ConsensusEvent)
    → ◌≡◌ {A = Outcome Result} (done x) (done (t, es))
    → es ≡ x.1
result_inv x t es e = ground arith

events_inv :
    (x y : List ConsensusEvent) → ◌≡◌ {A = Outcome (List ConsensusEvent)} (done x) (done y) → y ≡ x
events_inv x y e = ground arith

soft_event-AreSoft :
    (c : Committee) (s : DagState) (r : ℕ) (l : BlockRef) (fires : Bool) {es : List ConsensusEvent}
    → soft_event c s r l fires ≡ done es
    → AreSoft es
unfolding soft_event
soft_event-AreSoft c s r l false {es} e = subst AreSoft (sym (events_inv [] es e)) tt
soft_event-AreSoft c s r l true {es} e =
    let (bs, _, e1) =
      >>=-eq-done (get_causal_blocks s l (gc_round s))
        (λ (bs : List VerifiedBlock).
          done (ConsensusEvent.soft_commit r (to_shared_block_ref l) (transactions_of bs) ∷ []))
        e in
    subst AreSoft (sym (events_inv _ es e1)) tt

-- Every run has sent only soft commits.
abbrev SendsSoft : Outcome Result → Type 0
SendsSoft m = (t : SoftCommitTracker) (es : List ConsensusEvent) → m ≡ done (t, es) → AreSoft es

nothing_sent : (t : SoftCommitTracker) → SendsSoft (done (t, []))
nothing_sent t t' es e = subst AreSoft (sym (result_inv (t, []) t' es e)) tt

-- One call after another.
chained :
    (m : Outcome Result) (next : SoftCommitTracker → Outcome Result)
    → SendsSoft m
    → ((t : SoftCommitTracker) → SendsSoft (next t))
    → SendsSoft (m >>= λ first. next first.0 >>= λ more. done (more.0, first.1 ++ more.1))
chained m next h k t es e =
    let (first, e1, e2) =
      >>=-eq-done m (λ (first : Result). next first.0 >>= λ more. done (more.0, first.1 ++ more.1))
        e in
    let (more, e3, e4) =
      >>=-eq-done (next first.0) (λ (more : Result). done (more.0, first.1 ++ more.1)) e2 in
    subst AreSoft (sym (result_inv (more.0, first.1 ++ more.1) t es e4))
      (AreSoft-append first.1 more.1 (h first.0 first.1 e1) (k first.0 more.0 more.1 e3))

check_ancestor-AreSoft :
    (c : Committee) (s : DagState) (r expected voter : ℕ) (t : SoftCommitTracker) (a : BlockRef)
    → SendsSoft (check_ancestor c s r expected voter t a)
unfolding check_ancestor
check_ancestor-AreSoft c s r expected voter t a =
    if_intro SendsSoft (a.round == r && a.author == expected)
      (or_panic (add_vote t a voter c) >>= λ v.
        soft_event c s r a v.1 >>= λ events. done (v.0, events))
      (done (t, [])) (λ _. voted) (λ _. nothing_sent t)
  where
    voted : SendsSoft (
        or_panic (add_vote t a voter c) >>= λ v.
        soft_event c s r a v.1 >>= λ events. done (v.0, events))
    voted t' es e =
        let (v, _, e1) =
          >>=-eq-done (or_panic (add_vote t a voter c))
            (λ (v : SoftCommitTracker × Bool).
              soft_event c s r a v.1 >>= λ events. done (v.0, events))
            e in
        let (events, e2, e3) =
          >>=-eq-done (soft_event c s r a v.1)
            (λ (events : List ConsensusEvent). done (v.0, events)) e1 in
        subst AreSoft (sym (result_inv (v.0, events) t' es e3)) (soft_event-AreSoft c s r a v.1 e2)

check_ancestors-AreSoft :
    (c : Committee) (s : DagState) (r expected voter : ℕ) (t : SoftCommitTracker)
    (as_ : List BlockRef)
    → SendsSoft (check_ancestors c s r expected voter t as_)
unfolding check_ancestors
check_ancestors-AreSoft c s r expected voter t [] = nothing_sent t
check_ancestors-AreSoft c s r expected voter t (a ∷ rest) =
    chained (check_ancestor c s r expected voter t a)
      (λ u. check_ancestors c s r expected voter u rest)
      (check_ancestor-AreSoft c s r expected voter t a)
      (λ u. check_ancestors-AreSoft c s r expected voter u rest)

check_soft_commit-AreSoft :
    (c : Committee) (s : DagState) (t : SoftCommitTracker) (b : VerifiedBlock)
    → SendsSoft (check_soft_commit c s t b)
unfolding check_soft_commit
check_soft_commit-AreSoft c s t b =
    let run : ℕ → Outcome Result =
      λ expected. check_ancestors c s (b.round - 1) expected b.author t b.ancestors in
    let led : Outcome Result =
      or_panic (leader_at_round (b.round - 1) (Committee.size c)) >>= run in
    let voted : SendsSoft led = λ t' es e.
      let (expected, _, e1) =
        >>=-eq-done (or_panic (leader_at_round (b.round - 1) (Committee.size c))) run e in
      check_ancestors-AreSoft c s (b.round - 1) expected b.author t b.ancestors t' es e1 in
    if_intro SendsSoft (ltb b.round 2) (done (t, []))
      (if is_leader_round (b.round - 1) then led else done (t, [])) (λ _. nothing_sent t)
      (λ _.
        if_intro SendsSoft (is_leader_round (b.round - 1)) led (done (t, [])) (λ _. voted)
          (λ _. nothing_sent t))

pub check_soft_commits-AreSoft :
    (c : Committee) (s : DagState) (t : SoftCommitTracker) (bs : List VerifiedBlock)
    → SendsSoft (check_soft_commits c s t bs)
unfolding check_soft_commits
check_soft_commits-AreSoft c s t [] = nothing_sent t
check_soft_commits-AreSoft c s t (b ∷ rest) =
    chained (check_soft_commit c s t b) (λ u. check_soft_commits c s u rest)
      (check_soft_commit-AreSoft c s t b) (λ u. check_soft_commits-AreSoft c s u rest)
