-- ===== src/Consensus/DagState/Causal/Fuel.antt =====
-- The read-only traversal ends.
use dual_optimistic_l.Base.{
  ℕ, zero, suc, ◌+◌, ◌≤◌, ◌<◌, ◌≡◌, refl, inl, inr, true, false, some, List, [], ◌∷◌, length,
  if◌then◌else◌, arith, Bool-cases, Option-cases, if_intro,
}
use dual_optimistic_l.Base.Map
use dual_optimistic_l.Base.Map.{Map}
use dual_optimistic_l.Base.Set
use dual_optimistic_l.Base.Set.{contains-insert}
use dual_optimistic_l.Consensus.DagState.{DagState, get_block, is_committed}
use dual_optimistic_l.Consensus.DagState.Outcome.{done, has_ended, >>=-has_ended}
use dual_optimistic_l.Consensus.DagState.Causal.{
  is_pushed, push_found, push_ancestor, push_ancestors, causal_loop, causal_fuel, get_causal_blocks,
}
use dual_optimistic_l.Consensus.Types.{BlockRef, VerifiedBlock, ref_iff, ref_key}

-- The entries whose key is not visited.
abbrev pub unvisited : List BlockRef → Map BlockRef VerifiedBlock → ℕ
unvisited v [] = 0
unvisited v ((r, b) ∷ m) = if Set.contains r v then unvisited v m else suc (unvisited v m)

abbrev room_of : List BlockRef → DagState → ℕ
room_of v s = unvisited v s.blocks + unvisited v s.genesis

pub unvisited-le-length :
    (v : List BlockRef) (m : Map BlockRef VerifiedBlock) → unvisited v m ≤ length m
unvisited-le-length v [] = omega arith
unvisited-le-length v ((r, b) ∷ m) = ground (arith, unvisited-le-length v m)

pub unvisited-insert :
    (k : BlockRef) (v : List BlockRef) (m : Map BlockRef VerifiedBlock)
    → unvisited (Set.insert k v) m ≤ unvisited v m
unvisited-insert k v [] = omega arith
unvisited-insert k v ((r, b) ∷ m) = ground (arith, unvisited-insert k v m, contains-insert r k v)

pub unvisited-insert_found :
    (k : BlockRef) (v : List BlockRef) (m : Map BlockRef VerifiedBlock) {a : VerifiedBlock}
    → Map.get k m ≡ some a
    → Set.contains k v ≡ false
    → unvisited (Set.insert k v) m < unvisited v m
unfolding Map.get
unvisited-insert_found k v [] e h = cc
unvisited-insert_found k v ((r, b) ∷ m) {a} e h = ground (
  arith,
  ref_iff k r,
  contains-insert r k v,
  unvisited-insert k v m,
  unvisited-insert_found k v m {a = a},
)

push_found-room :
    (s : DagState) (a : BlockRef) (v : List BlockRef) (stack : List VerifiedBlock)
    → Set.contains a v ≡ false
    → length (push_found (get_block s a) stack) + room_of (Set.insert a v) s
      ≤ length stack + room_of v s
unfolding get_block
push_found-room s a v stack h = elim (Option-cases (Map.get a s.blocks)) [
  | inr (b, e) ↦ rw e (
      omega
        (arith, unvisited-insert_found a v s.blocks {a = b} e h, unvisited-insert a v s.genesis))
  | inl e ↦ rw e (elim (Option-cases (Map.get a s.genesis)) [
    | inr (b, f) ↦ rw f (
        omega
          (arith, unvisited-insert_found a v s.genesis {a = b} f h, unvisited-insert a v s.blocks))
    | inl f ↦ rw f (omega (arith, unvisited-insert a v s.genesis, unvisited-insert a v s.blocks))
  ])
]

is_pushed-fresh :
    (s : DagState) (gc : ℕ) (v : List BlockRef) (a : BlockRef)
    → is_pushed s gc v a ≡ true
    → Set.contains a v ≡ false
unfolding is_pushed
is_pushed-fresh s gc v a h = ground arith

push_ancestors-room :
    (s : DagState) (gc : ℕ) (as_ : List BlockRef) (v : List BlockRef) (stack : List VerifiedBlock)
    → let (v', stack') = push_ancestors s gc as_ (v, stack) in
      length stack' + room_of v' s ≤ length stack + room_of v s
unfolding push_ancestors push_ancestor
push_ancestors-room s gc [] v stack = omega arith
push_ancestors-room s gc (a ∷ rest) v stack = elim (Bool-cases (is_pushed s gc v a)) [
  | inl yes_ ↦
      rw (yes_, push_ancestors, push_ancestor)
        (omega (
          arith,
          push_ancestors-room s gc rest (Set.insert a v) (push_found (get_block s a) stack),
          push_found-room s a v stack (is_pushed-fresh s gc v a yes_),
        ))
  | inr no_ ↦ rw (no_, push_ancestors, push_ancestor) (push_ancestors-room s gc rest v stack)
]

causal_loop-Ended :
    (fuel : ℕ) (s : DagState) (gc : ℕ) (v : List BlockRef) (stack : List VerifiedBlock)
    → length stack + room_of v s ≤ fuel
    → has_ended (causal_loop fuel s gc v stack) ≡ true
unfolding causal_loop
causal_loop-Ended zero s gc v [] h = refl
causal_loop-Ended (suc fuel) s gc v [] h = refl
causal_loop-Ended zero s gc v (b ∷ stack) h = absurd (omega arith)
causal_loop-Ended (suc fuel) s gc v (b ∷ stack) h =
    let st = push_ancestors s gc b.ancestors (v, stack) in
    >>=-has_ended (causal_loop fuel s gc st.0 st.1) (λ rest. done (b ∷ rest))
      (causal_loop-Ended fuel s gc st.0 st.1
        (omega (arith, push_ancestors-room s gc b.ancestors v stack)))
      (λ r e. refl)

-- Whatever the DAG and the leader, the read-only traversal ends.
pub get_causal_blocks-ends :
    (s : DagState) (leader_ref : BlockRef) (gc : ℕ)
    → has_ended (get_causal_blocks s leader_ref gc) ≡ true
unfolding get_causal_blocks
get_causal_blocks-ends s leader_ref gc = elim (Option-cases (get_block s leader_ref)) [
  | inl e ↦ rw (e, get_causal_blocks)
  | inr (leader, e) ↦
      rw (e, get_causal_blocks)
        (if_intro (λ x. has_ended x ≡ true) (is_committed s leader_ref) (done [])
          (causal_loop (causal_fuel s) s gc (Set.insert leader_ref []) (leader ∷ [])) (λ _. refl)
          (λ _. causal_loop-Ended (causal_fuel s) s gc (Set.insert leader_ref []) (leader ∷ []) (
            omega (
              arith,
              unvisited-le-length (Set.insert leader_ref []) s.blocks,
              unvisited-le-length (Set.insert leader_ref []) s.genesis,
            ))))
]
