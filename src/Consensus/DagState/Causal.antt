-- ===== src/Consensus/DagState/Causal.antt =====
-- `get_causal_blocks` of crates/consensus/src/dag_state.rs: the read-only traversal from a leader. The
-- head of the stack is the end of the source's vector. The fuel is one more than the DAG has blocks.
pub mod Fuel
use dual_optimistic_l.Base.{
  ℕ, zero, suc, ◌+◌, Bool, true, false, not, ◌&&◌, Option, none, some, List, [], ◌∷◌, length, ltb,
  if◌then◌else◌,
}
use dual_optimistic_l.Base.Set
use dual_optimistic_l.Consensus.DagState.{DagState, get_block, is_committed}
use dual_optimistic_l.Consensus.DagState.Outcome.{Outcome, done, out_of_fuel, ◌>>=◌}
use dual_optimistic_l.Consensus.Types.{BlockRef, VerifiedBlock, ref_key}

-- The test of the loop over ancestors, but for the insertion into `visited`.
unfoldable pub is_pushed : DagState → ℕ → List BlockRef → BlockRef → Bool
is_pushed s gc_round visited a =
    ltb gc_round a.round && (not (is_committed s a) && not (Set.contains a visited))

abbrev pub push_found : Option VerifiedBlock → List VerifiedBlock → List VerifiedBlock
push_found none stack = stack
push_found (some b) stack = b ∷ stack

-- One ancestor: marked as visited, and pushed if the DAG has it.
unfoldable pub push_ancestor :
    DagState
    → ℕ
    → BlockRef
    → List BlockRef × List VerifiedBlock
    → List BlockRef × List VerifiedBlock
push_ancestor s gc_round a st =
    if is_pushed s gc_round st.0 a then (Set.insert a st.0, push_found (get_block s a) st.1) else st

unfoldable pub push_ancestors :
    DagState
    → ℕ
    → List BlockRef
    → List BlockRef × List VerifiedBlock
    → List BlockRef × List VerifiedBlock
push_ancestors s gc_round [] st = st
push_ancestors s gc_round (a ∷ rest) st =
    push_ancestors s gc_round rest (push_ancestor s gc_round a st)

unfoldable pub causal_loop :
    ℕ → DagState → ℕ → List BlockRef → List VerifiedBlock → Outcome (List VerifiedBlock)
causal_loop fuel s gc_round visited [] = done []
causal_loop zero s gc_round visited (b ∷ stack) = out_of_fuel
causal_loop (suc fuel) s gc_round visited (b ∷ stack) =
    let st = push_ancestors s gc_round b.ancestors (visited, stack) in
    causal_loop fuel s gc_round st.0 st.1 >>= λ rest. done (b ∷ rest)

abbrev pub causal_fuel : DagState → ℕ
causal_fuel s = suc (suc (length s.blocks + length s.genesis))

unfoldable pub get_causal_blocks : DagState → BlockRef → ℕ → Outcome (List VerifiedBlock)
get_causal_blocks s leader_ref gc_round = elim (get_block s leader_ref) [
  | none ↦ done []
  | some leader ↦
      if is_committed s leader_ref
      then done []
      else causal_loop (causal_fuel s) s gc_round (Set.insert leader_ref []) (leader ∷ [])
]
