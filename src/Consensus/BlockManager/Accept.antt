-- ===== src/Consensus/BlockManager/Accept.antt =====
-- The calls of crates/consensus/src/block_manager.rs that accept blocks into the DAG; `none` is a panic.
use dual_optimistic_l.Base.{
  Bool, true, false, Option, none, some, List, [], ◌∷◌, ◌++◌, ltb, if◌then◌else◌,
}
use dual_optimistic_l.Base.Set
use dual_optimistic_l.Consensus.BlockManager.{
  BlockManager, TryAcceptResult, try_accept_one_block, try_unsuspend_children_blocks,
  drop_suspended,
}
use dual_optimistic_l.Consensus.Committee.{Committee}
use dual_optimistic_l.Consensus.DagState
use dual_optimistic_l.Consensus.DagState.{DagState, contains_block}
use dual_optimistic_l.Consensus.Types.{BlockRef, VerifiedBlock, reference, ref_key}

-- What the calls that also write the DAG work on.
pub record Store : Type 0 where
  pub dag_state : DagState
  pub manager : BlockManager

-- What a call returns: the blocks accepted, in order, and the missing references.
pub record Answer : Type 0 where
  pub accepted_blocks : List VerifiedBlock
  pub missing : List BlockRef

abbrev pub nothing : Answer
nothing = record { accepted_blocks = []; missing = [] }

module _ (c : Committee) where
  unfoldable pub try_accept_one_committed_block :
      Store → VerifiedBlock → Option (Store × List VerifiedBlock)
  try_accept_one_committed_block w b =
      if contains_block w.dag_state (reference b)
      then some (w, [])
      else elim (DagState.accept_blocks c w.dag_state (b ∷ [])) [
        | none ↦ none
        | some t ↦ some (
          record {
            dag_state = t;
            manager = drop_suspended (reference b) (record w.manager {
              missing_blocks = Set.remove (reference b) w.manager.missing_blocks;
            });
          },
          b ∷ [],
        )
      ]

  -- An accepted block enters the DAG with the children that waited for it alone.
  unfoldable pub finish_accept : DagState → BlockManager → VerifiedBlock → Option (Store × Answer)
  finish_accept s m b =
      let r = try_unsuspend_children_blocks (reference b) m in
      elim (DagState.accept_blocks c s (b ∷ r.1)) [
        | none ↦ none
        | some t ↦ some (
          record { dag_state = t; manager = r.0 },
          record { accepted_blocks = b ∷ r.1; missing = [] },
        )
      ]

  -- What follows the three results of `try_accept_one_block`.
  unfoldable pub after_try : DagState → BlockManager → TryAcceptResult → Option (Store × Answer)
  after_try s m (TryAcceptResult.accepted b) = finish_accept s m b
  after_try s m (TryAcceptResult.suspended missing) =
      some
        (record { dag_state = s; manager = m }, record { accepted_blocks = []; missing = missing })
  after_try s m TryAcceptResult.processed = some (record { dag_state = s; manager = m }, nothing)

  unfoldable pub accept_one : Store → VerifiedBlock → Option (Store × Answer)
  accept_one w b =
      let r = try_accept_one_block w.dag_state w.manager b in after_try w.dag_state r.0 r.1

  unfoldable pub accept_one_committed : Store → VerifiedBlock → Option (Store × Answer)
  accept_one_committed w b = elim (try_accept_one_committed_block w b) [
    | none ↦ none
    | some r ↦ some (r.0, record { accepted_blocks = r.1; missing = [] })
  ]

-- The stable sort by round.
unfoldable pub insert_by_round : VerifiedBlock → List VerifiedBlock → List VerifiedBlock
insert_by_round a [] = a ∷ []
insert_by_round a (b ∷ rest) =
    if ltb b.round a.round then b ∷ insert_by_round a rest else a ∷ b ∷ rest

unfoldable pub sort_by_round : List VerifiedBlock → List VerifiedBlock
sort_by_round [] = []
sort_by_round (b ∷ rest) = insert_by_round b (sort_by_round rest)

abbrev pub insert_all : List BlockRef → List BlockRef → List BlockRef
insert_all [] out = out
insert_all (r ∷ rest) out = insert_all rest (Set.insert r out)

-- The loop over the sorted blocks, one of the two calls above for each.
unfoldable pub accept_each :
    (Store → VerifiedBlock → Option (Store × Answer))
    → Store
    → List VerifiedBlock
    → Answer
    → Option (Store × Answer)
accept_each one w [] out = some (w, out)
accept_each one w (b ∷ rest) out = elim (one w b) [
  | none ↦ none
  | some r ↦ accept_each one r.0 rest (record {
    accepted_blocks = out.accepted_blocks ++ r.1.accepted_blocks;
    missing = insert_all r.1.missing out.missing;
  })
]

abbrev pub none_missing : Store × Answer → Option (Store × List VerifiedBlock)
none_missing (w, a) = elim a.missing [ [] ↦ some (w, a.accepted_blocks) | _ ↦ none ]

module _ (c : Committee) where
  unfoldable pub try_accept_blocks_internal :
      Store → List VerifiedBlock → Bool → Option (Store × Answer)
  try_accept_blocks_internal w blocks committed =
      accept_each (if committed then accept_one_committed c else accept_one c) w
        (sort_by_round blocks) nothing

  unfoldable pub try_accept_blocks : Store → List VerifiedBlock → Option (Store × Answer)
  try_accept_blocks w blocks = try_accept_blocks_internal w blocks false

  unfoldable pub try_accept_committed_blocks :
      Store → List VerifiedBlock → Option (Store × List VerifiedBlock)
  try_accept_committed_blocks w blocks = elim (try_accept_blocks_internal w blocks true) [
    | none ↦ none
    | some r ↦ none_missing r
  ]
