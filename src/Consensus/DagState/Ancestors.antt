-- ===== src/Consensus/DagState/Ancestors.antt =====
-- `ancestors_at_round` of crates/consensus/src/dag_state.rs. The fuel is the number of
-- sets of the ancestors of the later block and of all the blocks of the DAG: a longer loop comes to a
-- set a second time, and never ends.
pub mod Ascending
pub mod Fuel
use dual_optimistic_l.Base.{
  ℕ, zero, suc, ◌+◌, ◌^◌, Option, none, some, List, [], ◌∷◌, length, leb, if◌then◌else◌,
}
use dual_optimistic_l.Base.Map.{Map}
use dual_optimistic_l.Base.Set
use dual_optimistic_l.Consensus.DagState.{DagState, get_block}
use dual_optimistic_l.Consensus.DagState.Causal.{push_found}
use dual_optimistic_l.Consensus.DagState.Outcome.{Outcome, done, out_of_fuel, ◌>>=◌}
use dual_optimistic_l.Consensus.Types.{BlockRef, VerifiedBlock, ref_less, ref_key}

-- `BTreeSet::last`
abbrev pub last : List BlockRef → Option BlockRef
last [] = none
last (r ∷ []) = some r
last (r ∷ q ∷ rest) = last (q ∷ rest)

-- `BTreeSet::pop_last`
abbrev pub drop_last : List BlockRef → List BlockRef
drop_last [] = []
drop_last (r ∷ []) = []
drop_last (r ∷ q ∷ rest) = r ∷ drop_last (q ∷ rest)

-- `BTreeSet::extend`
unfoldable pub extend : List BlockRef → List BlockRef → List BlockRef
extend linked [] = linked
extend linked (a ∷ rest) = extend (Set.insert a linked) rest

abbrev pub extend_found : Option VerifiedBlock → List BlockRef → List BlockRef
extend_found none linked = linked
extend_found (some b) linked = extend linked b.ancestors

-- One round of the loop, or `none` where the loop ends.
unfoldable pub linked_step : DagState → ℕ → List BlockRef → Option (List BlockRef)
linked_step s earlier_round linked = elim (last linked) [
  | none ↦ none
  | some r ↦
      if leb r.round earlier_round
      then none
      else some (extend_found (get_block s r) (drop_last linked))
]

unfoldable pub linked_loop : ℕ → DagState → ℕ → List BlockRef → Outcome (List BlockRef)
linked_loop zero s earlier_round linked = elim (linked_step s earlier_round linked) [
  | none ↦ done linked
  | some next ↦ out_of_fuel
]
linked_loop (suc fuel) s earlier_round linked = elim (linked_step s earlier_round linked) [
  | none ↦ done linked
  | some next ↦ linked_loop fuel s earlier_round next
]

unfoldable pub count_ancestors : Map BlockRef VerifiedBlock → ℕ
count_ancestors [] = 0
count_ancestors ((r, b) ∷ rest) = length b.ancestors + count_ancestors rest

abbrev pub linked_fuel : DagState → VerifiedBlock → ℕ
linked_fuel s b = 2 ^ (length b.ancestors + (count_ancestors s.blocks + count_ancestors s.genesis))

-- The references from the first of the round on, looked up.
unfoldable pub found_from : DagState → ℕ → List BlockRef → List VerifiedBlock
found_from s earlier_round [] = []
found_from s earlier_round (r ∷ rest) =
    let more = found_from s earlier_round rest in
    if ref_less r (record { round = earlier_round; author = 0; digest = 0 })
    then more
    else push_found (get_block s r) more

unfoldable pub ancestors_at_round : DagState → VerifiedBlock → ℕ → Outcome (List VerifiedBlock)
ancestors_at_round s later_block earlier_round =
    linked_loop (linked_fuel s later_block) s earlier_round (extend [] later_block.ancestors)
    >>= λ linked. done (found_from s earlier_round linked)
