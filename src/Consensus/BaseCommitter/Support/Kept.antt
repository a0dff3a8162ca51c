-- ===== src/Consensus/BaseCommitter/Support/Kept.antt =====
-- The authors of the blocks that a query by round returns and that pass a test.
use dual_optimistic_l.Base.{
  ℕ, ◌≡◌, refl, sym, ap, ◌∙◌, inl, inr, Bool, true, false, not, ◌&&◌, ◌||◌, Option, none, some,
  List, [], ◌∷◌, ◌==◌, ==_iff, arith, Bool-cases, if_intro,
}
use dual_optimistic_l.Base.Key.{nat_key}
use dual_optimistic_l.Base.Map
use dual_optimistic_l.Base.Map.{Map}
use dual_optimistic_l.Base.Map.Order.{Above, IsSorted, get_below}
use dual_optimistic_l.Base.Set
use dual_optimistic_l.Consensus.BaseCommitter.Support.Tally.{voters_of}
use dual_optimistic_l.Consensus.DagState.{DagState, is_committed, uncommitted_in, in_round}
use dual_optimistic_l.Consensus.DagState.Store.{KeyedMap}
use dual_optimistic_l.Consensus.Types.{
  BlockRef, VerifiedBlock, reference, ref_eqb, ref_iff, ref_key,
}

-- What the query keeps of a map's entries.
pub record IsKept (s : DagState) (n : ℕ) (m : Map BlockRef VerifiedBlock) (b : VerifiedBlock)
    : Type 0 where
  pub there : Map.get (reference b) m ≡ some b
  pub here : in_round n (reference b) ≡ true
  pub fresh : is_committed s (reference b) ≡ false

lift-IsKept :
    (s : DagState) (n : ℕ) (r : BlockRef) (d : VerifiedBlock) (rest : Map BlockRef VerifiedBlock)
    (b : VerifiedBlock)
    → Above r rest
    → IsKept s n rest b
    → IsKept s n ((r, d) ∷ rest) b
unfolding Map.get
lift-IsKept s n r d rest b above k = elim (Bool-cases (ref_eqb (reference b) r)) [
  | inl same ↦
      let e : reference b ≡ r = (ref_iff (reference b) r).0 same in
      let gone : Map.get (reference b) rest ≡ none = rw e (get_below r rest above) in
      absurd (clash (sym gone ∙ k.there))
  | inr other ↦ record { there = rw (other, Map.get) k.there; here = k.here; fresh = k.fresh }
]
  where
    clash : ¬ (◌≡◌ {A = Option VerifiedBlock} none (some b))
    clash h = absurd (ground arith)

head-IsKept :
    (s : DagState) (n : ℕ) (r : BlockRef) (b : VerifiedBlock) (rest : Map BlockRef VerifiedBlock)
    → reference b ≡ r
    → (in_round n r && not (is_committed s (reference b))) ≡ true
    → IsKept s n ((r, b) ∷ rest) b
unfolding Map.get
head-IsKept s n r b rest keyed h =
    let self : ref_eqb (reference b) r ≡ true = (ref_iff (reference b) r).1 keyed in
    record {
      there = rw (self, Map.get);
      here = ap (in_round n) keyed ∙ left _ _ h;
      fresh = right _ _ h;
    }
  where
    left : (x y : Bool) → (x && not y) ≡ true → x ≡ true
    left x y h = ground arith

    right : (x y : Bool) → (x && not y) ≡ true → y ≡ false
    right x y h = ground arith

-- The authors of the kept blocks that pass `f`.
unfoldable pub authors_of :
    DagState → ℕ → (VerifiedBlock → Bool) → Map BlockRef VerifiedBlock → List ℕ
authors_of s n f m = voters_of f (λ b. b.author) (uncommitted_in s (in_round n) m)

unfoldable pub Author :
    DagState → ℕ → (VerifiedBlock → Bool) → Map BlockRef VerifiedBlock → ℕ → Type 0
Author s n f m j = (b : VerifiedBlock) × IsKept s n m b × (f b ≡ true) × (b.author ≡ j)

pub Author-inv :
    (s : DagState) (n : ℕ) (f : VerifiedBlock → Bool) (m : Map BlockRef VerifiedBlock) (j : ℕ)
    → KeyedMap m
    → IsSorted m
    → Set.contains j (authors_of s n f m) ≡ true
    → Author s n f m j
unfolding authors_of uncommitted_in Set.contains Author
Author-inv s n f [] j k o h = absurd (ground arith)
Author-inv s n f ((r, d) ∷ rest) j k o h =
    let later = λ (g : Set.contains j (authors_of s n f rest) ≡ true).
      lift (Author-inv s n f rest j k.1 o.1 g) in
    elim (Bool-cases (in_round n r && not (is_committed s (reference d)))) [
      | inr out ↦ later (rw (out, authors_of, uncommitted_in) at h)
      | inl kept ↦ elim (Bool-cases (f d)) [
        | inr no_ ↦ later (rw (kept, authors_of, uncommitted_in, no_) at h)
        | inl yes_ ↦ elim (Bool-cases (j == d.author)) [
          | inl same ↦
              (d, head-IsKept s n r d rest k.0 kept, yes_, sym ((==_iff j d.author).0 same))
          | inr other ↦
              later
                (rest_of (j == d.author) _ other (rw (kept, authors_of, uncommitted_in, yes_) at h))
        ]
      ]
    ]
  where
    lift : Author s n f rest j → Author s n f ((r, d) ∷ rest) j
    lift (b, kept, passes, author) = (b, lift-IsKept s n r d rest b o.0 kept, passes, author)

    rest_of : (p q : Bool) → p ≡ false → (p || q) ≡ true → q ≡ true
    rest_of p q e h = ground arith

pub author-IsKept :
    (s : DagState) (n : ℕ) (f : VerifiedBlock → Bool) (m : Map BlockRef VerifiedBlock)
    (b : VerifiedBlock)
    → KeyedMap m
    → IsKept s n m b
    → f b ≡ true
    → Set.contains b.author (authors_of s n f m) ≡ true
unfolding authors_of uncommitted_in Set.contains Map.get
author-IsKept s n f [] b k kept h = absurd (clash kept.there)
  where
    clash : ¬ (◌≡◌ {A = Option VerifiedBlock} none (some b))
    clash e = absurd (ground arith)
author-IsKept s n f ((r, d) ∷ rest) b k kept h = elim (Bool-cases (ref_eqb (reference b) r)) [
  | inl same ↦
      let e : reference b ≡ r = (ref_iff (reference b) r).0 same in
      let here : d ≡ b = head_is (rw (same, Map.get) at kept.there) in
      let passes : (in_round n r && not (is_committed s (reference d))) ≡ true =
        rw (here, ← e, kept.here, kept.fresh) in
      let f_d : f d ≡ true = rw here h in
      let self : (b.author == d.author) ≡ true = rw here ((==_iff b.author b.author).1 refl) in
      rw (passes, f_d, self)
  | inr other ↦
      let ih =
        author-IsKept s n f rest b k.1
          (record {
            there = rw (other, Map.get) at kept.there;
            here = kept.here;
            fresh = kept.fresh;
          })
          h in
      if_intro (λ bs. Set.contains b.author (voters_of f (λ b. b.author) bs) ≡ true)
        (in_round n r && not (is_committed s (reference d)))
        (d ∷ uncommitted_in s (in_round n) rest) (uncommitted_in s (in_round n) rest)
        (λ _.
          if_intro (λ js. Set.contains b.author js ≡ true) (f d) (d.author ∷ authors_of s n f rest)
            (authors_of s n f rest) (λ _. or_right _ _ ih) (λ _. ih))
        (λ _. ih)
]
  where
    head_is : ◌≡◌ {A = Option VerifiedBlock} (some d) (some b) → d ≡ b
    head_is e = ground arith

    or_right : (p q : Bool) → q ≡ true → (p || q) ≡ true
    or_right p q e = ground arith
