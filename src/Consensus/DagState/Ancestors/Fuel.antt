-- ===== src/Consensus/DagState/Ancestors/Fuel.antt =====
-- `ancestors_at_round` ends: what is popped comes down in order, so that no reference is popped twice.
use dual_optimistic_l.Base.{
  ℕ, ◌^◌, zero, suc, ◌+◌, ◌≤◌, ◌<◌, ◌≡◌, refl, inl, inr, Bool, true, false, Option, none, some,
  List, [], ◌∷◌, All, length, leb, if◌then◌else◌, arith, Bool-cases, Option-cases,
}
use dual_optimistic_l.Base.Map
use dual_optimistic_l.Base.Map.{Map}
use dual_optimistic_l.Consensus.DagState.{DagState, get_block}
use dual_optimistic_l.Consensus.DagState.Ancestors.{
  last, drop_last, extend, extend_found, linked_step, linked_loop, count_ancestors, linked_fuel,
  found_from, ancestors_at_round,
}
use dual_optimistic_l.Consensus.DagState.Outcome.{done, has_ended, >>=-has_ended}
use dual_optimistic_l.Consensus.Types.{
  BlockRef, VerifiedBlock, ref_eqb, ref_iff, ref_key, ref_less, ref_trans, ref_irrefl,
}
use dual_optimistic_l.Consensus.DagState.Ancestors.Ascending.{
  IsDescending, get_block-lower, Below, IsAscending, Passes, extend-Passes, extend-IsAscending,
  extend-length, last-Passes, last_lem,
}

-- The ancestors of the blocks whose reference passes `f`.
abbrev weigh : (BlockRef → Bool) → Map BlockRef VerifiedBlock → ℕ
weigh f [] = 0
weigh f ((r, b) ∷ rest) = (if f r then length b.ancestors else 0) + weigh f rest

weigh-all : (m : Map BlockRef VerifiedBlock) → weigh (λ _. true) m ≡ count_ancestors m
unfolding count_ancestors
weigh-all [] = refl
weigh-all ((r, b) ∷ rest) = omega (arith, weigh-all rest)

-- `f` passes all that lies below what it passes.
abbrev IsDownward : (BlockRef → Bool) → Type 0
IsDownward f = (k r : BlockRef) → f r ≡ true → ref_less k r ≡ true → f k ≡ true

heavier :
    (p q : Bool) (n extra x y : ℕ)
    → (p ≡ true → q ≡ true)
    → x + extra ≤ y
    → (if p then n else 0) + x + extra ≤ (if q then n else 0) + y
heavier p q n extra x y f h = ground arith

weigh_mono :
    (f : BlockRef → Bool) (r : BlockRef) (m : Map BlockRef VerifiedBlock)
    → IsDownward f
    → f r ≡ true
    → weigh (λ k. ref_less k r) m ≤ weigh f m
weigh_mono f r [] d h = omega arith
weigh_mono f r ((j, b) ∷ rest) d h = omega (
  arith,
  heavier (ref_less j r) (f j) (length b.ancestors) 0 (weigh (λ k. ref_less k r) rest)
      (weigh f rest) (d j r h) (omega (arith, weigh_mono f r rest d h)),
)

weigh_drop :
    (f : BlockRef → Bool) (r : BlockRef) {b : VerifiedBlock} (m : Map BlockRef VerifiedBlock)
    → IsDownward f
    → f r ≡ true
    → Map.get r m ≡ some b
    → weigh (λ k. ref_less k r) m + length b.ancestors ≤ weigh f m
unfolding Map.get
weigh_drop f r [] d h e = absurd (ground arith)
weigh_drop f r {b} ((j, x) ∷ rest) d h e = elim (Bool-cases (ref_eqb r j)) [
  | inl same ↦
      let k : x ≡ b = ground arith in
      let at_r : r ≡ j = (ref_iff r j).0 same in
      let fj : f j ≡ true = rw at_r at h in
      rw (← at_r, h, ref_irrefl r, k) (omega (arith, weigh_mono f r rest d h))
  | inr other ↦
      heavier (ref_less j r) (f j) (length x.ancestors) (length b.ancestors) _ _ (d j r h)
        (weigh_drop f r {b = b} rest d h (ground arith))
]

-- What stays, in the list and to come, of a state of the loop.
abbrev rest_of : (BlockRef → Bool) → DagState → List BlockRef → ℕ
rest_of f s linked = length linked + (weigh f s.blocks + weigh f s.genesis)

below_IsDownward : (r : BlockRef) → IsDownward (λ k. ref_less k r)
below_IsDownward r k j h l = ref_trans k j r l h

lower_Passes :
    (r : BlockRef) (as_ : List BlockRef)
    → All (λ a. a.round < r.round) as_
    → Passes (λ k. ref_less k r) as_
lower_Passes r [] h = tt
lower_Passes r (a ∷ rest) h = (ground (arith, h.0), lower_Passes r rest h.1)

-- One pop leaves less.
pop-rest :
    (f : BlockRef → Bool) (s : DagState) (r : BlockRef) (linked : List BlockRef)
    → IsDownward f
    → f r ≡ true
    → rest_of (λ k. ref_less k r) s (extend_found (get_block s r) linked) ≤ rest_of f s linked
unfolding get_block
pop-rest f s r linked d h = elim (Option-cases (Map.get r s.blocks)) [
  | inr (b, e) ↦ rw e (
      omega (
        arith,
        weigh_drop f r {b = b} s.blocks d h e,
        weigh_mono f r s.genesis d h,
        extend-length linked b.ancestors,
      ))
  | inl e ↦ rw e (elim (Option-cases (Map.get r s.genesis)) [
    | inr (b, g) ↦ rw g (
        omega (
          arith,
          weigh_drop f r {b = b} s.genesis d h g,
          weigh_mono f r s.blocks d h,
          extend-length linked b.ancestors,
        ))
    | inl g ↦ rw g (omega (arith, weigh_mono f r s.blocks d h, weigh_mono f r s.genesis d h))
  ])
]

pop-Passes :
    (s : DagState) (r : BlockRef) (linked : List BlockRef)
    → IsDescending s
    → Below r linked
    → IsAscending linked
    → Passes (λ k. ref_less k r) (extend_found (get_block s r) linked)
      × IsAscending (extend_found (get_block s r) linked)
pop-Passes s r linked k h o = elim (Option-cases (get_block s r)) [
  | inl e ↦ rw e (h, o)
  | inr (b, e) ↦ rw e (
    extend-Passes (λ k. ref_less k r) linked b.ancestors h
        (lower_Passes r b.ancestors (get_block-lower s r k e)),
    extend-IsAscending linked b.ancestors o,
  )
]

-- How a round of the loop goes.
step_inv :
    (s : DagState) (earlier : ℕ) (linked next : List BlockRef)
    → linked_step s earlier linked ≡ some next
    → (r : BlockRef) × (last linked ≡ some r)
      × (next ≡ extend_found (get_block s r) (drop_last linked))
unfolding linked_step
step_inv s earlier linked next e = elim (Option-cases (last linked)) [
  | inl h ↦ absurd (clash (rw (h, linked_step) at e))
  | inr (r, h) ↦ (r, h, popped r (leb r.round earlier) (rw (h, linked_step) at e))
]
  where
    clash : ¬ (◌≡◌ {A = Option (List BlockRef)} none (some next))
    clash h = absurd (ground arith)

    popped :
        (r : BlockRef) (b : Bool)
        → ◌≡◌ {A = Option (List BlockRef)}
            (if b then none else some (extend_found (get_block s r) (drop_last linked)))
            (some next)
        → next ≡ extend_found (get_block s r) (drop_last linked)
    popped r true h = absurd (ground arith)
    popped r false h = ground arith

linked_loop-Ended :
    (fuel : ℕ) (s : DagState) (earlier : ℕ) (linked : List BlockRef) (f : BlockRef → Bool)
    → IsDescending s
    → IsAscending linked
    → Passes f linked
    → IsDownward f
    → rest_of f s linked ≤ fuel
    → has_ended (linked_loop fuel s earlier linked) ≡ true
unfolding linked_loop
linked_loop-Ended zero s earlier linked f k o p d h =
    elim (Option-cases (linked_step s earlier linked)) [
      | inl e ↦ rw (e, linked_loop)
      | inr (next, e) ↦
          let (r, at_last, _) = step_inv s earlier linked next e in
          let (_, _, n) = last_lem linked o at_last in absurd (omega (arith, n))
    ]
linked_loop-Ended (suc fuel) s earlier linked f k o p d h =
    elim (Option-cases (linked_step s earlier linked)) [
      | inl e ↦ rw (e, linked_loop)
      | inr (next, e) ↦
          let (r, at_last, popped) = step_inv s earlier linked next e in
          let (below, ascending, n) = last_lem linked o at_last in
          let passes = last-Passes f linked p at_last in
          let (p', o') = pop-Passes s r (drop_last linked) k below ascending in
          rw (e, linked_loop, popped)
            (linked_loop-Ended fuel s earlier (extend_found (get_block s r) (drop_last linked))
              (λ k. ref_less k r) k o' p' (below_IsDownward r)
              (omega (arith, n, pop-rest f s r (drop_last linked) d passes)))
    ]

lt_pow : (n : ℕ) → n < 2 ^ n
lt_pow zero = omega arith
lt_pow (suc n) = omega (arith, lt_pow n)

all_pass : (as_ : List BlockRef) → Passes (λ _. true) as_
all_pass [] = tt
all_pass (a ∷ rest) = (refl, all_pass rest)

-- Where every block of the DAG stands under its own reference and names only ancestors of lower rounds,
-- the search for the ancestors at a round ends, whatever the block it starts from.
pub ancestors_at_round-ends :
    (s : DagState) (b : VerifiedBlock) (earlier_round : ℕ)
    → IsDescending s
    → has_ended (ancestors_at_round s b earlier_round) ≡ true
unfolding ancestors_at_round
ancestors_at_round-ends s b earlier k =
    >>=-has_ended (linked_loop (linked_fuel s b) s earlier (extend [] b.ancestors))
      (λ linked. done (found_from s earlier linked))
      (linked_loop-Ended (linked_fuel s b) s earlier (extend [] b.ancestors) (λ _. true) k
        (extend-IsAscending [] b.ancestors tt)
        (extend-Passes (λ _. true) [] b.ancestors tt (all_pass b.ancestors)) (λ _ _ _ _. refl)
        (omega (
          lt_pow (length b.ancestors + (count_ancestors s.blocks + count_ancestors s.genesis)),
          arith,
          extend-length [] b.ancestors,
          weigh-all s.blocks,
          weigh-all s.genesis,
        )))
      (λ _ _. refl)
