-- ===== src/Consensus/Linearizer/Fuel.antt =====
-- The traversal ends: the fuel of `linearize_sub_dag` is always enough.
use dual_optimistic_l.Base.{
  ℕ, zero, suc, ◌+◌, ◌≤◌, ◌<◌, ◌≡◌, ◌⊎◌, refl, inl, inr, true, false, Option, none, some, List, [],
  ◌∷◌, All, length, map, if◌then◌else◌, arith, Bool-cases, Option-cases,
}
use dual_optimistic_l.Base.Map
use dual_optimistic_l.Base.Map.{Map}
use dual_optimistic_l.Base.Set
use dual_optimistic_l.Base.Set.{contains-insert}
use dual_optimistic_l.Consensus.DagState.{DagState, or_else, get_block, get_blocks, set_committed}
use dual_optimistic_l.Consensus.DagState.Outcome.{
  done, panic, ◌>>=◌, has_ended, >>=-has_ended, >>=-eq-done,
}
use dual_optimistic_l.Consensus.Linearizer.{
  uncommitted_ancestors, expect_all, push_all, visit, with_head, loop, fuel_for, finish,
  linearize_sub_dag,
}
use dual_optimistic_l.Consensus.Types.{BlockRef, VerifiedBlock, reference, ref_eqb, ref_key}

-- The entries whose block is not committed.
abbrev pub room : List BlockRef → Map BlockRef VerifiedBlock → ℕ
room c [] = 0
room c ((r, b) ∷ m) = if Set.contains (reference b) c then room c m else suc (room c m)

abbrev room_of : List BlockRef → DagState → ℕ
room_of c s = room c s.blocks + room c s.genesis

room-le-length : (c : List BlockRef) (m : Map BlockRef VerifiedBlock) → room c m ≤ length m
room-le-length c [] = omega arith
room-le-length c ((r, b) ∷ m) = ground (arith, room-le-length c m)

room-insert :
    (k : BlockRef) (c : List BlockRef) (m : Map BlockRef VerifiedBlock)
    → room (Set.insert k c) m ≤ room c m
room-insert k c [] = omega arith
room-insert k c ((r, b) ∷ m) = ground (arith, room-insert k c m, contains-insert (reference b) k c)

self_eqb : (r : BlockRef) → ref_eqb r r ≡ true
self_eqb r = ground arith

room-insert-found :
    (k : BlockRef) (c : List BlockRef) (m : Map BlockRef VerifiedBlock) {a : VerifiedBlock}
    → Map.get k m ≡ some a
    → Set.contains (reference a) c ≡ false
    → room (Set.insert (reference a) c) m < room c m
unfolding Map.get
room-insert-found k c [] e h = cc
room-insert-found k c ((r, b) ∷ m) {a} e h = elim (Bool-cases (ref_eqb k r)) [
  | inl here ↦
      let same : b ≡ a = ground arith in
      rw (same, h, contains-insert (reference a) (reference a) c, self_eqb (reference a))
        (omega (arith, room-insert (reference a) c m))
  | inr other ↦
      ground (arith, room-insert-found k c m {a = a}, contains-insert (reference b) (reference a) c)
]

abbrev Found : DagState → VerifiedBlock → Type 0
Found s a = (r : BlockRef) × (get_block s r ≡ some a)

or_else_inv :
    (o o' : Option VerifiedBlock) {a : VerifiedBlock}
    → or_else o o' ≡ some a
    → (o ≡ some a) ⊎ (o' ≡ some a)
or_else_inv none o' e = inr e
or_else_inv (some b) o' e = inl e

room_of-insert :
    (s : DagState) (c : List BlockRef) (a : VerifiedBlock)
    → Found s a
    → Set.contains (reference a) c ≡ false
    → room_of (Set.insert (reference a) c) s < room_of c s
unfolding get_block
room_of-insert s c a (r, e) h = elim (or_else_inv (Map.get r s.blocks) (Map.get r s.genesis) e) [
  | inl b ↦
      omega
        (arith, room-insert-found r c s.blocks {a = a} b h, room-insert (reference a) c s.genesis)
  | inr g ↦
      omega
        (arith, room-insert-found r c s.genesis {a = a} g h, room-insert (reference a) c s.blocks)
]

-- Either the ancestors pushed use up as much room as they take in the buffer, or there is a panic.
push_all-room :
    (s : DagState) (c : List BlockRef) (xs : List VerifiedBlock) (buffer : List VerifiedBlock)
    → All (Found s) xs
    → (has_ended (push_all c xs buffer) ≡ true)
      × ((c' : List BlockRef) (buffer' : List VerifiedBlock)
          → push_all c xs buffer ≡ done (c', buffer')
          → length buffer' + room_of c' s ≤ length buffer + room_of c s)
unfolding push_all
push_all-room s c [] buffer f = (refl, λ c' buffer' e. ground arith)
push_all-room s c (a ∷ xs) buffer f = elim (Bool-cases (Set.contains (reference a) c)) [
  | inl old ↦ rw old (refl, λ c' buffer' e. absurd (ground arith))
  | inr fresh ↦
      let (ended, fits) = push_all-room s (Set.insert (reference a) c) xs (a ∷ buffer) f.1 in
      rw fresh
        (ended, λ c' buffer' e. omega (arith, fits c' buffer' e, room_of-insert s c a f.0 fresh))
]

expect_all-Ended : (os : List (Option VerifiedBlock)) → has_ended (expect_all os) ≡ true
unfolding expect_all
expect_all-Ended [] = refl
expect_all-Ended (none ∷ os) = refl
expect_all-Ended (some b ∷ os) =
    >>=-has_ended (expect_all os) (λ bs. done (b ∷ bs)) (expect_all-Ended os) (λ a e. refl)

expect_all-Found :
    (s : DagState) (rs : List BlockRef) {xs : List VerifiedBlock}
    → expect_all (map (get_block s) rs) ≡ done xs
    → All (Found s) xs
unfolding expect_all
expect_all-Found s [] {xs} e = let k : xs ≡ [] = ground arith in rw k tt
expect_all-Found s (r ∷ rs) {xs} e = elim (Option-cases (get_block s r)) [
  | inl lost ↦ absurd (blocked s r rs lost e)
  | inr (b, found) ↦
      let (ys, e1, e2) =
        >>=-eq-done (expect_all (map (get_block s) rs)) (λ bs. done (b ∷ bs))
          (step s r rs b found e) in
      let k : xs ≡ b ∷ ys = ground arith in rw k ((r, found), expect_all-Found s rs e1)
]
  where
    blocked :
        (s : DagState) (r : BlockRef) (rs : List BlockRef)
        → get_block s r ≡ none
        → expect_all (get_block s r ∷ map (get_block s) rs) ≡ done xs
        → ⊥
    blocked s r rs lost e = let k : panic ≡ done xs = rw lost at e in ground arith

    step :
        (s : DagState) (r : BlockRef) (rs : List BlockRef) (b : VerifiedBlock)
        → get_block s r ≡ some b
        → expect_all (get_block s r ∷ map (get_block s) rs) ≡ done xs
        → (expect_all (map (get_block s) rs) >>= λ bs. done (b ∷ bs)) ≡ done xs
    step s r rs b found e = rw found at e

visit-room :
    (s : DagState) (c : List BlockRef) (b : VerifiedBlock) (buffer : List VerifiedBlock)
    → (has_ended (visit s c b buffer) ≡ true)
      × ((c' : List BlockRef) (buffer' : List VerifiedBlock)
          → visit s c b buffer ≡ done (c', buffer')
          → length buffer' + room_of c' s ≤ length buffer + room_of c s)
unfolding visit get_blocks
visit-room s c b buffer =
    let rs = uncommitted_ancestors s c b in
    let m = expect_all (map (get_block s) rs) in
    (
      >>=-has_ended m (λ xs. push_all c xs buffer) (expect_all-Ended _)
          (λ xs e. (push_all-room s c xs buffer (expect_all-Found s rs e)).0),
      λ c' buffer' e.
          let (xs, e1, e2) = >>=-eq-done m (λ xs. push_all c xs buffer) e in
          (push_all-room s c xs buffer (expect_all-Found s rs e1)).1 c' buffer' e2,
    )

loop-Ended :
    (fuel : ℕ) (s : DagState) (c : List BlockRef) (buffer : List VerifiedBlock)
    → length buffer + room_of c s ≤ fuel
    → has_ended (loop fuel s c buffer) ≡ true
unfolding loop
loop-Ended zero s c [] h = refl
loop-Ended (suc fuel) s c [] h = refl
loop-Ended zero s c (b ∷ buffer) h = absurd (omega arith)
loop-Ended (suc fuel) s c (b ∷ buffer) h =
    let (ended, fits) = visit-room s c b buffer in
    >>=-has_ended (visit s c b buffer)
      (λ (st : List BlockRef × List VerifiedBlock). loop fuel s st.0 st.1 >>= with_head b) ended
      (λ st e.
        >>=-has_ended (loop fuel s st.0 st.1) (with_head b)
          (loop-Ended fuel s st.0 st.1 (omega (arith, fits st.0 st.1 e))) (λ r e. refl))

finish-Ended :
    (s : DagState) (r : List BlockRef × List VerifiedBlock) → has_ended (finish s r) ≡ true
finish-Ended s (c, out) = ground arith

-- Whatever the DAG and the leader, linearising ends: with a sub-dag, or by one of the source's
-- panics, but never for want of fuel.
pub linearize_sub_dag-ends :
    (leader : VerifiedBlock) (s : DagState) → has_ended (linearize_sub_dag leader s) ≡ true
unfolding linearize_sub_dag set_committed
linearize_sub_dag-ends leader s =
    let c = Set.insert (reference leader) s.committed in
    let run : has_ended (loop (fuel_for s) s c (leader ∷ []) >>= finish s) ≡ true =
      >>=-has_ended (loop (fuel_for s) s c (leader ∷ [])) (finish s)
        (loop-Ended (fuel_for s) s c (leader ∷ [])
          (omega (arith, room-le-length c s.blocks, room-le-length c s.genesis)))
        (λ r e. finish-Ended s r) in
    elim (Bool-cases (Set.contains (reference leader) s.committed)) [
      | inl old ↦ rw old
      | inr fresh ↦ rw fresh run
    ]
