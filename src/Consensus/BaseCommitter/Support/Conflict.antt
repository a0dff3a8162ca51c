-- ===== src/Consensus/BaseCommitter/Support/Conflict.antt =====
-- Blame and a certificate for the same leader.
use mathlib.Core.Path.{subst}
use dual_optimistic_l.Base.{
  ℕ, ◌+◌, ◌≤◌, ◌≡◌, refl, sym, ap, ◌∙◌, inl, inr, Bool, true, false, Option, none, some, List, [],
  ◌∷◌, All, leb, ◌||◌, ◌==◌, ==_iff, if◌then◌else◌, arith, Bool-cases, Option-cases,
}
use dual_optimistic_l.Base.Key.{nat_key}
use dual_optimistic_l.Base.Set
use dual_optimistic_l.Consensus.BaseCommitter.Support.{
  find_supported_block, is_reference, is_vote, vote_of,
}
use dual_optimistic_l.Consensus.BaseCommitter.Support.Search.{find_supported_block_lem}
use dual_optimistic_l.Consensus.BaseCommitter.Support.Supports.{
  names, through, HasAncestors, IsCausal, Supports, IsRight, get_block-HasAncestors, ancestor_lem,
}
use dual_optimistic_l.Consensus.BaseCommitter.Support.Tally.{voters_of}
use dual_optimistic_l.Consensus.DagState.{DagState, get_block, gc_round}
use dual_optimistic_l.Consensus.DagState.Outcome.{Outcome, done, panic, ◌>>=◌}
use dual_optimistic_l.Consensus.DagState.Store.{get_block-reference}
use dual_optimistic_l.Consensus.Types.{
  BlockRef, Slot, VerifiedBlock, reference, ref_eqb, ref_iff, ref_key, slot_of,
}

-- Right above the leader's round, a block supports only what it names.
Supports-names :
    (s : DagState) (p : Slot) (d : VerifiedBlock) (q : BlockRef)
    → HasAncestors s d
    → d.round ≤ p.round + 1
    → Supports s p d q
    → (d.round ≡ p.round + 1) × (Set.contains q d.ancestors ≡ true)
Supports-names s p _ _ h low (names d a inside slot) =
    let below = ancestor_lem s d.round a d.ancestors h inside in (ground arith, inside)
Supports-names s p _ _ h low (through d x a q inside l g r) =
    let below = ancestor_lem s d.round a d.ancestors h inside in absurd (omega arith)

bool_inv : (x y : Bool) → ◌≡◌ {A = Outcome Bool} (done x) (done y) → x ≡ y
bool_inv x y e = ground arith

vote_found :
    (s : DagState) (l : VerifiedBlock) (a : BlockRef) {d : VerifiedBlock}
    → get_block s a ≡ some d
    → vote_of s l a ≡ is_vote s d l
unfolding vote_of
vote_found s l a e = rw (e, vote_of)

vote_lost :
    (s : DagState) (l : VerifiedBlock) (a : BlockRef) (v : Bool)
    → get_block s a ≡ none
    → vote_of s l a ≡ done v
    → v ≡ false
unfolding vote_of
vote_lost s l a v e h = go (leb a.round (gc_round s)) (rw (e, vote_of) at h)
  where
    go :
        (low : Bool)
        → ◌≡◌ {A = Outcome Bool} (if low then done false else panic) (done v)
        → v ≡ false
    go true k = ground arith
    go false k = absurd (ground arith)

voted-Supports :
    (s : DagState) (l d : VerifiedBlock)
    → IsCausal s
    → HasAncestors s d
    → is_vote s d l ≡ done true
    → Supports s (slot_of (reference l)) d (reference l)
unfolding is_vote
voted-Supports s l d k h e =
    let (r, e1, right) = find_supported_block_lem s (slot_of (reference l)) d k h in
    answered r e1 right
  where
    after : Option BlockRef → Outcome Bool
    after r = done (is_reference (reference l) r)

    answered :
        (r : Option BlockRef)
        → find_supported_block s (slot_of (reference l)) d ≡ done r
        → IsRight (Supports s (slot_of (reference l)) d) r
        → Supports s (slot_of (reference l)) d (reference l)
    answered none e1 right =
        absurd (clash (bool_inv false true (sym (ap (λ o. o >>= after) e1) ∙ e)))
      where
        clash : ¬ (false ≡ true)
        clash x = absurd (ground arith)
    answered (some q) e1 right =
        let same : ref_eqb q (reference l) ≡ true =
          bool_inv (ref_eqb q (reference l)) true (sym (ap (λ o. o >>= after) e1) ∙ e) in
        subst (Supports s (slot_of (reference l)) d) ((ref_iff q (reference l)).0 same) right

-- A voting ancestor right above the leader names the leader's block.
pub vote_names :
    (s : DagState) (l : VerifiedBlock) (a : BlockRef)
    → IsCausal s
    → a.round ≤ l.round + 1
    → vote_of s l a ≡ done true
    → (d : VerifiedBlock) × (get_block s a ≡ some d)
      × (reference d ≡ a)
      × (d.round ≡ l.round + 1)
      × (Set.contains (reference l) d.ancestors ≡ true)
vote_names s l a k low e = elim (Option-cases (get_block s a)) [
  | inl lost ↦ let f = vote_lost s l a true lost e in absurd (ground arith)
  | inr (d, found) ↦
      let h = get_block-HasAncestors s a k found in
      let at_a : reference d ≡ a = get_block-reference s a k.keyed found in
      let same : d.round ≡ a.round = ap (λ r. r.round) at_a in
      let sup = voted-Supports s l d k h (sym (vote_found s l a found) ∙ e) in
      let (round, named) =
        Supports-names s (slot_of (reference l)) d (reference l) h (omega (arith, same)) sup in
      (d, found, at_a, round, named)
]

pub All-get {κ} :
    (P : BlockRef → Type κ) (as_ : List BlockRef) (a : BlockRef)
    → All P as_
    → Set.contains a as_ ≡ true
    → P a
unfolding Set.contains
All-get P [] a h e = absurd (ground arith)
All-get P (b ∷ rest) a h e = elim (Bool-cases (ref_eqb a b)) [
  | inl same ↦ subst P (sym ((ref_iff a b).0 same)) h.0
  | inr other ↦ All-get P rest a h.1 (later (ref_eqb a b) _ other e)
]
  where
    later : (p q : Bool) → p ≡ false → (p || q) ≡ true → q ≡ true
    later p q h e = ground arith

-- The author of a reference that passes.
pub passed_author :
    (f : BlockRef → Bool) (as_ : List BlockRef) (j : ℕ)
    → Set.contains j (voters_of f (λ a. a.author) as_) ≡ true
    → (a : BlockRef) × (Set.contains a as_ ≡ true) × (f a ≡ true) × (a.author ≡ j)
unfolding Set.contains
passed_author f [] j e = absurd (ground arith)
passed_author f (a ∷ rest) j e =
    let later = λ (g : Set.contains j (voters_of f (λ a. a.author) rest) ≡ true).
      step (passed_author f rest j g) in
    elim (Bool-cases (f a)) [
      | inr no_ ↦ later (rw no_ at e)
      | inl yes_ ↦ elim (Bool-cases (j == a.author)) [
        | inl same ↦ (a, or_left _ _ ((ref_iff a a).1 refl), yes_, sym ((==_iff j a.author).0 same))
        | inr other ↦ later (tail_of (j == a.author) _ other (rw yes_ at e))
      ]
    ]
  where
    tail_of : (p q : Bool) → p ≡ false → (p || q) ≡ true → q ≡ true
    tail_of p q h e = ground arith

    or_left : (p q : Bool) → p ≡ true → (p || q) ≡ true
    or_left p q h = ground arith

    or_right : (p q : Bool) → q ≡ true → (p || q) ≡ true
    or_right p q h = ground arith

    step :
        ((b : BlockRef) × (Set.contains b rest ≡ true) × (f b ≡ true) × (b.author ≡ j))
        → (b : BlockRef) × (Set.contains b (a ∷ rest) ≡ true) × (f b ≡ true) × (b.author ≡ j)
    step (b, inside, passes, author) = (b, or_right _ _ inside, passes, author)
