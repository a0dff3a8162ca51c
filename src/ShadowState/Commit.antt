-- ===== src/ShadowState/Commit.antt =====
-- The two-phase commit of crates/shadow-state/src/lib.rs. The canonical database's commit of a diff
-- is a parameter.
pub mod Finality
use dual_optimistic_l.Base.{
  ℕ, Bool, true, false, Option, none, some, List, [], ◌∷◌, ltb, ◌==◌, if◌then◌else◌, add64,
}
use dual_optimistic_l.Base.Key.{nat_key}
use dual_optimistic_l.Base.Map
use dual_optimistic_l.Base.Map.{Map}
use dual_optimistic_l.Base.Map.Values.{or_default}
use dual_optimistic_l.Shared.{EthSignedTx}
use dual_optimistic_l.ShadowState.{
  pending_commit, RoundLayer, CommitError, out_of_order, CommitHandle, ShadowDb,
}
use dual_optimistic_l.ShadowState.Validation.{validate_round}

module _ {Info : Type 0} where
  -- `layers.retain(|&ci, _| ci > commit_index)`
  unfoldable pub retain_above : ℕ → Map ℕ (RoundLayer Info) → Map ℕ (RoundLayer Info)
  retain_above commit_index [] = []
  retain_above commit_index ((ci, layer) ∷ m) =
      if ltb commit_index ci
      then (ci, layer) ∷ retain_above commit_index m
      else retain_above commit_index m

-- The ordering check: the index due.
abbrev pub next_index : Option ℕ → ℕ
next_index none = 1
next_index (some prev) = add64 prev 1

module _ {Info Db : Type 0} where
  unfoldable pub stage_commit : ShadowDb Info Db → ℕ → List ℕ → ShadowDb Info Db × CommitHandle
  stage_commit s commit_index final_tx_order =
      let conflicts = validate_round s commit_index in
      elim (Map.get commit_index s.layers) [
        | none ↦
            (s, record { commit_index = commit_index; conflicts = conflicts; reexec_queue = [] })
        | some layer ↦ (
          record s {
            layers = Map.insert commit_index (record layer { status = pending_commit }) s.layers;
          },
          record {
            commit_index = commit_index;
            conflicts = conflicts;
            reexec_queue = or_default [] layer.pending_txs;
          },
        )
      ]

  module _ {Changes : Type 0} (commit : Db → Changes → Db) where
    -- `none` is `Ok(())`.
    unfoldable pub finalize_commit :
        ShadowDb Info Db → ℕ → Changes → ShadowDb Info Db × Option CommitError
    finalize_commit s commit_index changes =
        if commit_index == next_index s.last_finalized
        then (
          record s {
            canonical = commit s.canonical changes;
            layers = retain_above commit_index s.layers;
            last_finalized = some commit_index;
          },
          none,
        )
        else (s, some out_of_order)
