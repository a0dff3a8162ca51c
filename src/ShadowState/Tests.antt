-- ===== src/ShadowState/Tests.antt =====
-- Concrete runs of crates/shadow-state: two transactions of one round, the second having read what
-- the first wrote; account infos, database and changes are numbers.
use dual_optimistic_l.Base.{
  ℕ, ◌+◌, ◌≡◌, ◌↔◌, ◌⊎◌, inr, refl, Bool, true, ◌&&◌, ◌||◌, none, some, List, [], ◌∷◌, length, map,
  ◌==◌, if◌then◌else◌, arith,
}
use dual_optimistic_l.Base.Key.{nat_key, pair_key}
use dual_optimistic_l.Base.Map
use dual_optimistic_l.Base.Map.Values.{on_some, or_else, newest}
use dual_optimistic_l.Base.Set
use dual_optimistic_l.ShadowState.{
  SlotKey, data_value, pending, SlotVersions, speculative, RoundLayer, ShadowDb, EvmState,
}
use dual_optimistic_l.ShadowState.Execution.{record_tx_execution, abort_tx, commit_tx_execution}
use dual_optimistic_l.ShadowState.Execution.Versions.{written_value, as_data}
use dual_optimistic_l.ShadowState.Execution.Effects.{
  version_of, readers_of, record_tx_execution_lem, commit_tx_execution_lem, abort_tx_lem,
}
use dual_optimistic_l.ShadowState.Validation.{cascade_invalidate}
use dual_optimistic_l.ShadowState.Validation.Affected.{IsAffected}
use dual_optimistic_l.ShadowState.Validation.Cascade.{cleared, cascade_invalidate_lem}
use dual_optimistic_l.ShadowState.Commit.Finality.{
  indices_from, apply_all, finalize_all, finalize_all_lem,
}
use dual_optimistic_l.ShadowState.Readlast.{
  written, found_in, find_in_layer, readlast_storage, storage_ref,
}
use dual_optimistic_l.ShadowState.Readlast.Reads.{
  noted_read, pending_after, readlast_storage-noted, pending_falls_back,
}

abbrev one_slot : SlotVersions
one_slot = record { versions = (0, data_value 7) ∷ []; readers = (0, 1 ∷ []) ∷ [] }

abbrev first_round : RoundLayer ℕ
first_round = record {
  commit_index = 1;
  status = speculative;
  slot_versions = ((5, 6), one_slot) ∷ [];
  account_versions = [];
  pending_txs = none;
  tx_reads = (1, ((5, 6), 7) ∷ []) ∷ [];
}

abbrev shadow : ShadowDb ℕ ℕ
shadow = record {
  canonical = 0;
  layers = (1, first_round) ∷ [];
  current_tx = 3;
  current_commit_index = 1;
  coinbase = 9;
  last_finalized = none;
}

abbrev reported : EvmState ℕ
reported =
    (5, record { info = 0; storage = (6, record { present_value = 8; is_changed = true }) ∷ [] })
    ∷ []

round_there : Map.get 1 shadow.layers ≡ some first_round
unfolding Map.get
round_there = refl

record_tx_execution_lem_example :
    version_of (record_tx_execution shadow 1 2 reported) 1 (5, 6) 2 ≡ (
      if 1 == 1 && 2 == 2
      then or_else (as_data (written_value 5 6 reported)) (version_of shadow 1 (5, 6) 2)
      else version_of shadow 1 (5, 6) 2)
record_tx_execution_lem_example = record_tx_execution_lem shadow 1 2 reported 1 5 6 2

commit_tx_execution_lem_example :
    version_of (commit_tx_execution shadow 1 0 reported) 1 (5, 6) 0 ≡ (
      if 1 == 1 && 0 == 0
      then as_data (written_value 5 6 reported)
      else version_of shadow 1 (5, 6) 0)
commit_tx_execution_lem_example =
    commit_tx_execution_lem shadow 1 0 reported {layer = first_round} 1 5 6 0 round_there

abort_tx_lem_example :
    let (s', notified) = abort_tx shadow 1 0 in
    (version_of s' 1 (5, 6) 1 ≡ (
      if 1 == 1 && 1 == 0
      then on_some (λ v. pending) (version_of shadow 1 (5, 6) 1)
      else version_of shadow 1 (5, 6) 1))
    × (readers_of s' 1 (5, 6) 1 ≡ (if 1 == 1 && 1 == 0 then [] else readers_of shadow 1 (5, 6) 1))
    × ((Set.contains 1 (readers_of shadow 1 (5, 6) 0) || Set.contains 1 notified)
        ≡ Set.contains 1 notified)
abort_tx_lem_example = abort_tx_lem shadow 1 0 {layer = first_round} 1 5 6 1 round_there

cascade_invalidate_lem_example :
    let (s', out) = cascade_invalidate shadow 0 ((5, 6) ∷ []) in
    (affected : Bool) × ((affected ≡ true) ↔ IsAffected 0 ((5, 6) ∷ []) 1 first_round)
    × (Map.get 1 s'.layers ≡ some (if affected then cleared first_round else first_round))
    × (Set.contains 1 out ≡ affected)
    × (¬ IsAffected 0 ((5, 6) ∷ []) 1 (if affected then cleared first_round else first_round))
cascade_invalidate_lem_example =
    cascade_invalidate_lem shadow 0 ((5, 6) ∷ []) 1 {layer = first_round} round_there (tt, tt)
      (tt, tt)

abbrev add_changes : ℕ → ℕ → ℕ
add_changes db changes = db + changes

abbrev finalizations : List (ℕ × ℕ)
finalizations = (2, 10) ∷ (1, 20) ∷ (2, 30) ∷ []

finalize_all_lem_example :
    let (s', accepted) = finalize_all add_changes shadow finalizations in
    (map (λ c. c.0) accepted ≡ indices_from 1 (length accepted))
    × (s'.canonical ≡ apply_all add_changes 0 accepted)
finalize_all_lem_example = finalize_all_lem add_changes shadow finalizations

seven_read : (readlast_storage shadow (5, 6) 1 3).1 ≡ some 7
unfolding readlast_storage newest find_in_layer Map.get written found_in
seven_read = refl

readlast_storage-noted_example :
    (layer' : RoundLayer ℕ) × (Map.get 1 (readlast_storage shadow (5, 6) 1 3).0.layers
      ≡ some layer')
    × (noted_read layer' 3 (5, 6) ≡ some 7)
readlast_storage-noted_example =
    readlast_storage-noted shadow (5, 6) 1 3 7 {layer = first_round} round_there seven_read

abbrev always_forty : ℕ → SlotKey → Unit {0} ⊎ ℕ
always_forty db key = inr 40

pending_falls_back_example :
    (storage_ref always_forty (pending_after shadow 1 (5, 6) 0 2 0) (5, 6)).1 ≡ inr 40
pending_falls_back_example =
    pending_falls_back always_forty shadow (5, 6) 1 0 2 0 (omega arith) (omega arith)
