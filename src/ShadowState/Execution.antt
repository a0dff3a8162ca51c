-- ===== src/ShadowState/Execution.antt =====
-- The dependency notification of crates/shadow-state/src/lib.rs: a transaction's results recorded,
-- aborted, and recorded again.
pub mod Versions
pub mod Effects
use dual_optimistic_l.Base.{
  ℕ, Bool, true, false, Option, none, some, List, [], ◌∷◌, ◌++◌, ◌==◌, if◌then◌else◌,
}
use dual_optimistic_l.Base.Key.{nat_key, pair_key}
use dual_optimistic_l.Base.Map
use dual_optimistic_l.Base.Map.{Map}
use dual_optimistic_l.Base.Map.Values.{or_default, update, map_values}
use dual_optimistic_l.Base.Set
use dual_optimistic_l.ShadowState.{
  SlotKey, data_value, pending, SlotVersions, AccountDiff, RoundLayer, ShadowDb, StorageSlot,
  Account, EvmState, no_versions, layer_at,
}

-- The version `Data(value)`, and an empty reader list if there is none.
unfoldable pub write_slot : ℕ → ℕ → SlotVersions → SlotVersions
write_slot tx_idx value sv = record {
  versions = Map.insert tx_idx (data_value value) sv.versions;
  readers = Map.insert tx_idx (or_default [] (Map.get tx_idx sv.readers)) sv.readers;
}

-- The changed slots of one account.
unfoldable pub write_storage :
    ℕ → ℕ → List (ℕ × StorageSlot) → Map SlotKey SlotVersions → Map SlotKey SlotVersions
write_storage tx_idx addr [] m = m
write_storage tx_idx addr ((key, slot) ∷ rest) m = write_storage tx_idx addr rest (
    if slot.is_changed
    then Map.insert (addr, key)
        (write_slot tx_idx slot.present_value (or_default no_versions (Map.get (addr, key) m))) m
    else m)

-- The earliest sorted list of distinct members: `sort_unstable` and `dedup`.
unfoldable pub sort_dedup : List ℕ → List ℕ
sort_dedup [] = []
sort_dedup (x ∷ xs) = Set.insert x (sort_dedup xs)

-- The version becomes `Pending`, and the readers are drained.
unfoldable pub abort_slot : ℕ → SlotVersions → SlotVersions
abort_slot tx_idx sv = record {
  versions = update tx_idx (λ v. pending) sv.versions;
  readers = update tx_idx (λ rs. []) sv.readers;
}

-- The readers drained from all slots.
unfoldable pub drained : ℕ → Map SlotKey SlotVersions → List ℕ
drained tx_idx [] = []
drained tx_idx ((k, sv) ∷ m) = or_default [] (Map.get tx_idx sv.readers) ++ drained tx_idx m

unfoldable pub clear_slot : ℕ → SlotVersions → SlotVersions
clear_slot tx_idx sv = record {
  versions = Map.remove tx_idx sv.versions;
  readers = Map.remove tx_idx sv.readers;
}

module _ {Info : Type 0} where
  unfoldable pub write_account :
      ℕ → ℕ → ℕ → Account Info → Map ℕ (Map ℕ (AccountDiff Info)) → Map ℕ (Map ℕ (AccountDiff Info))
  write_account coinbase tx_idx addr account m =
      if addr == coinbase
      then m
      else Map.insert addr
          (Map.insert tx_idx (record { info = account.info }) (or_default [] (Map.get addr m))) m

  -- The loop over the accounts of `evm_state`.
  unfoldable pub write_state : ℕ → ℕ → EvmState Info → RoundLayer Info → RoundLayer Info
  write_state coinbase tx_idx [] layer = layer
  write_state coinbase tx_idx ((addr, account) ∷ rest) layer =
      write_state coinbase tx_idx rest (record layer {
        account_versions = write_account coinbase tx_idx addr account layer.account_versions;
        slot_versions = write_storage tx_idx addr account.storage layer.slot_versions;
      })

  -- The whole of `abort_tx` in the layer.
  abbrev pub abort_layer : ℕ → RoundLayer Info → RoundLayer Info
  abort_layer tx_idx layer = record layer {
    slot_versions = map_values (abort_slot tx_idx) layer.slot_versions;
  }

  -- The transaction's slot entries and reads go before the new values are written.
  abbrev pub clear_layer : ℕ → RoundLayer Info → RoundLayer Info
  clear_layer tx_idx layer = record layer {
    slot_versions = map_values (clear_slot tx_idx) layer.slot_versions;
    tx_reads = Map.remove tx_idx layer.tx_reads;
  }

module _ {Info Db : Type 0} where
  unfoldable pub record_tx_execution : ShadowDb Info Db → ℕ → ℕ → EvmState Info → ShadowDb Info Db
  record_tx_execution s commit_index tx_idx evm_state = record s {
    layers =
        Map.insert commit_index (write_state s.coinbase tx_idx evm_state (layer_at commit_index s))
          s.layers;
  }

  unfoldable pub abort_tx : ShadowDb Info Db → ℕ → ℕ → ShadowDb Info Db × List ℕ
  abort_tx s commit_index tx_idx = elim (Map.get commit_index s.layers) [
    | none ↦ (s, [])
    | some layer ↦ (
      record s { layers = Map.insert commit_index (abort_layer tx_idx layer) s.layers },
      sort_dedup (drained tx_idx layer.slot_versions),
    )
  ]

  unfoldable pub commit_tx_execution : ShadowDb Info Db → ℕ → ℕ → EvmState Info → ShadowDb Info Db
  commit_tx_execution s commit_index tx_idx evm_state = elim (Map.get commit_index s.layers) [
    | none ↦ s
    | some layer ↦ record s {
      layers =
          Map.insert commit_index
            (write_state s.coinbase tx_idx evm_state (clear_layer tx_idx layer)) s.layers;
    }
  ]
