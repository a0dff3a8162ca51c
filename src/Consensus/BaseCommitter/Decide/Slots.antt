-- ===== src/Consensus/BaseCommitter/Decide/Slots.antt =====
-- Both rules answer for the slot that they are asked about.
use dual_optimistic_l.Base.{
  ℕ, ◌≡◌, refl, ap, ◌∙◌, Bool, true, false, not, ◌&&◌, List, [], ◌∷◌, All, if◌then◌else◌, add32,
  arith, if_intro,
}
use dual_optimistic_l.Base.Map.{Map}
use dual_optimistic_l.Consensus.BaseCommitter.{BaseCommitterOptions, decision_round, wave_number}
use dual_optimistic_l.Consensus.BaseCommitter.Support.{
  or_panic, enough_leader_blame, enough_leader_support,
}
use dual_optimistic_l.Consensus.BaseCommitter.Decide.{
  cons_if, filter_blocks, at_most_one, try_direct_decide, any_certificate,
  decide_leader_from_anchor, from_anchors, try_indirect_decide,
}
use dual_optimistic_l.Consensus.Commit.{LeaderStatus}
use dual_optimistic_l.Consensus.Committee.{Committee}
use dual_optimistic_l.Consensus.DagState.{
  DagState, is_committed, uncommitted_in, in_slot, get_uncommitted_blocks_at_slot,
}
use dual_optimistic_l.Consensus.DagState.Ancestors.{ancestors_at_round}
use dual_optimistic_l.Consensus.DagState.Outcome.{Outcome, done, ◌>>=◌, >>=-eq-done}
use dual_optimistic_l.Consensus.DagState.Store.{KeyedMap, IsKeyed}
use dual_optimistic_l.Consensus.Types.{BlockRef, Slot, VerifiedBlock, reference, slot_of}

abbrev pub status_slot : LeaderStatus → Slot
status_slot (LeaderStatus.commit b) = slot_of (reference b)
status_slot (LeaderStatus.skip p) = p
status_slot (LeaderStatus.undecided p) = p

abbrev pub AtSlot : Slot → VerifiedBlock → Type 0
AtSlot p b = slot_of (reference b) ≡ p

in_slot_inv : (p : Slot) (r : BlockRef) → in_slot p r ≡ true → slot_of r ≡ p
in_slot_inv p r h = ground arith

uncommitted_in-AtSlot :
    (s : DagState) (p : Slot) (m : Map BlockRef VerifiedBlock)
    → KeyedMap m
    → All (AtSlot p) (uncommitted_in s (in_slot p) m)
unfolding uncommitted_in
uncommitted_in-AtSlot s p [] k = tt
uncommitted_in-AtSlot s p ((r, b) ∷ rest) k =
    let more = uncommitted_in s (in_slot p) rest in
    let ih = uncommitted_in-AtSlot s p rest k.1 in
    if_intro (All (AtSlot p)) (in_slot p r && not (is_committed s (reference b))) (b ∷ more) more
      (λ h. (ap slot_of k.0 ∙ in_slot_inv p r (left _ _ h), ih)) (λ _. ih)
  where
    left : (x y : Bool) → (x && y) ≡ true → x ≡ true
    left x y h = ground arith

pub at_slot_lem :
    (s : DagState) (p : Slot) → IsKeyed s → All (AtSlot p) (get_uncommitted_blocks_at_slot s p)
unfolding get_uncommitted_blocks_at_slot
at_slot_lem s p k = uncommitted_in-AtSlot s p s.blocks k.blocks

list_inv :
    (x y : List VerifiedBlock) → ◌≡◌ {A = Outcome (List VerifiedBlock)} (done x) (done y) → y ≡ x
list_inv x y e = ground arith

filter_blocks-All :
    (P : VerifiedBlock → Type 0) (test : VerifiedBlock → Outcome Bool) (bs : List VerifiedBlock)
    {out : List VerifiedBlock}
    → All P bs
    → filter_blocks test bs ≡ done out
    → All P out
unfolding filter_blocks
filter_blocks-All P test [] {out} h e = rw (list_inv [] out e) tt
filter_blocks-All P test (b ∷ rest) {out} h e =
    let (takes, e1, e2) =
      >>=-eq-done (test b)
        (λ (y : Bool). filter_blocks test rest >>= λ more. done (cons_if y b more)) e in
    let (more, e3, e4) =
      >>=-eq-done (filter_blocks test rest)
        (λ (more : List VerifiedBlock). done (cons_if takes b more)) e2 in
    rw (list_inv (cons_if takes b more) out e4)
      (either takes more (filter_blocks-All P test rest h.1 e3))
  where
    either : (takes : Bool) (more : List VerifiedBlock) → All P more → All P (cons_if takes b more)
    either true more a = (h.0, a)
    either false more a = a

status_inv : (x y : LeaderStatus) → ◌≡◌ {A = Outcome LeaderStatus} (done x) (done y) → y ≡ x
status_inv x y e = ground arith

at_most_one-slot :
    (p : Slot) (otherwise st : LeaderStatus) (bs : List VerifiedBlock)
    → status_slot otherwise ≡ p
    → All (AtSlot p) bs
    → at_most_one otherwise bs ≡ done st
    → status_slot st ≡ p
unfolding at_most_one
at_most_one-slot p otherwise st [] h a e = rw (status_inv otherwise st e) h
at_most_one-slot p otherwise st (b ∷ []) h a e = rw (status_inv (LeaderStatus.commit b) st e) a.0
at_most_one-slot p otherwise st (b ∷ d ∷ rest) h a e = absurd (ground arith)

filtered-slot :
    (p : Slot) (otherwise st : LeaderStatus) (test : VerifiedBlock → Outcome Bool)
    (bs : List VerifiedBlock)
    → status_slot otherwise ≡ p
    → All (AtSlot p) bs
    → (filter_blocks test bs >>= at_most_one otherwise) ≡ done st
    → status_slot st ≡ p
filtered-slot p otherwise st test bs h a e =
    let (out, e1, e2) = >>=-eq-done (filter_blocks test bs) (at_most_one otherwise) e in
    at_most_one-slot p otherwise st out h (filter_blocks-All (AtSlot p) test bs a e1) e2

pub try_direct_decide-slot :
    (c : Committee) (o : BaseCommitterOptions) (s : DagState) (p : Slot) {st : LeaderStatus}
    → IsKeyed s
    → try_direct_decide c o s p ≡ done st
    → status_slot st ≡ p
unfolding try_direct_decide
try_direct_decide-slot c o s p {st} k e =
    let rest : ℕ → Outcome LeaderStatus = λ wave.
      filter_blocks (enough_leader_support c s (decision_round o wave))
        (get_uncommitted_blocks_at_slot s p)
      >>= at_most_one (LeaderStatus.undecided p) in
    let (blamed, _, e1) =
      >>=-eq-done (or_panic (enough_leader_blame c s (add32 p.round 1) p.authority))
        (λ (blamed : Bool).
          if blamed
          then done (LeaderStatus.skip p)
          else (or_panic (wave_number o p.round) >>= rest))
        e in
    skipped blamed rest e1 (λ wave h.
      filtered-slot p (LeaderStatus.undecided p) st
        (enough_leader_support c s (decision_round o wave)) (get_uncommitted_blocks_at_slot s p)
        refl (at_slot_lem s p k) h)
  where
    skipped :
        (blamed : Bool) (rest : ℕ → Outcome LeaderStatus)
        → (if blamed
            then done (LeaderStatus.skip p)
            else (or_panic (wave_number o p.round) >>= rest))
          ≡ done st
        → ((wave : ℕ) → rest wave ≡ done st → status_slot st ≡ p)
        → status_slot st ≡ p
    skipped true rest h f = rw (status_inv (LeaderStatus.skip p) st h)
    skipped false rest h f =
        let (wave, _, h1) = >>=-eq-done (or_panic (wave_number o p.round)) rest h in f wave h1

decide_leader_from_anchor-slot :
    (c : Committee) (o : BaseCommitterOptions) (s : DagState) (anchor : VerifiedBlock) (p : Slot)
    {st : LeaderStatus}
    → IsKeyed s
    → decide_leader_from_anchor c o s anchor p ≡ done st
    → status_slot st ≡ p
unfolding decide_leader_from_anchor
decide_leader_from_anchor-slot c o s anchor p {st} k e =
    let last_part : List VerifiedBlock → Outcome LeaderStatus = λ certs.
      filter_blocks (λ b. any_certificate c s b [] certs) (get_uncommitted_blocks_at_slot s p)
      >>= at_most_one (LeaderStatus.skip p) in
    let (wave, _, e1) =
      >>=-eq-done (or_panic (wave_number o p.round))
        (λ (wave : ℕ). ancestors_at_round s anchor (decision_round o wave) >>= last_part) e in
    let (certs, _, e2) =
      >>=-eq-done (ancestors_at_round s anchor (decision_round o wave)) last_part e1 in
    filtered-slot p (LeaderStatus.skip p) st (λ b. any_certificate c s b [] certs)
      (get_uncommitted_blocks_at_slot s p) refl (at_slot_lem s p k) e2

from_anchors-slot :
    (c : Committee) (o : BaseCommitterOptions) (s : DagState) (p : Slot) (xs : List LeaderStatus)
    {st : LeaderStatus}
    → IsKeyed s
    → from_anchors c o s p xs ≡ done st
    → status_slot st ≡ p
unfolding from_anchors
from_anchors-slot c o s p [] {st} k e = rw (status_inv (LeaderStatus.undecided p) st e)
from_anchors-slot c o s p (LeaderStatus.commit anchor ∷ rest) k e =
    decide_leader_from_anchor-slot c o s anchor p k e
from_anchors-slot c o s p (LeaderStatus.skip q ∷ rest) k e = from_anchors-slot c o s p rest k e
from_anchors-slot c o s p (LeaderStatus.undecided q ∷ rest) {st} k e =
    rw (status_inv (LeaderStatus.undecided p) st e)

pub try_indirect_decide-slot :
    (c : Committee) (o : BaseCommitterOptions) (s : DagState) (p : Slot)
    (leaders : List LeaderStatus) {st : LeaderStatus}
    → IsKeyed s
    → try_indirect_decide c o s p leaders ≡ done st
    → status_slot st ≡ p
unfolding try_indirect_decide
try_indirect_decide-slot c o s p leaders k e = from_anchors-slot c o s p _ k e
