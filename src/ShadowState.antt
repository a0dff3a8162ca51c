-- ===== src/ShadowState.antt =====
-- crates/shadow-state/src/lib.rs: speculative state in layers above the canonical database. Addresses,
-- storage keys and values are the numbers of their bytes. What revm provides is a parameter: the
-- type of account infos, and the database with its commit of a diff. The locks are not modelled: each
-- method holds its lock throughout.
pub mod Execution
pub mod Validation
pub mod Commit
pub mod Readlast
mod Tests
use dual_optimistic_l.Base.{
  ℕ, Bool, true, false, Option, none, some, List, [], ◌∷◌, ◌==◌, if◌then◌else◌,
}
use dual_optimistic_l.Base.Key.{nat_key, pair_key}
use dual_optimistic_l.Base.Map
use dual_optimistic_l.Base.Map.{Map}
use dual_optimistic_l.Base.Map.Values.{or_default}
use dual_optimistic_l.Shared.{EthSignedTx}

-- An address and a storage key.
abbrev pub SlotKey : Type 0
SlotKey = ℕ × ℕ

pub data VersionedValue : Type 0 where
  data_value : ℕ → VersionedValue
  pending : VersionedValue
  absent : VersionedValue

pub record SlotVersions : Type 0 where
  pub versions : Map ℕ VersionedValue
  pub readers : Map ℕ (List ℕ)

pub data LayerStatus : Type 0 where
  speculative pending_commit : LayerStatus

pub record AccountDiff (Info : Type 0) : Type 0 where
  pub info : Info

pub record RoundLayer (Info : Type 0) : Type 0 where
  pub commit_index : ℕ
  pub status : LayerStatus
  pub slot_versions : Map SlotKey SlotVersions
  pub account_versions : Map ℕ (Map ℕ (AccountDiff Info))
  pub pending_txs : Option (List EthSignedTx)
  pub tx_reads : Map ℕ (Map SlotKey ℕ)

pub data CommitError : Type 0 where
  out_of_order layer_not_found : CommitError

pub record CommitHandle : Type 0 where
  pub commit_index : ℕ
  pub conflicts : List ℕ
  pub reexec_queue : List EthSignedTx

pub record ShadowDb (Info Db : Type 0) : Type 0 where
  pub canonical : Db
  pub layers : Map ℕ (RoundLayer Info)
  pub current_tx : ℕ
  pub current_commit_index : ℕ
  pub coinbase : ℕ
  pub last_finalized : Option ℕ

-- What the EVM reports of one storage slot and of one account.
pub record StorageSlot : Type 0 where
  pub present_value : ℕ
  pub is_changed : Bool

pub record Account (Info : Type 0) : Type 0 where
  pub info : Info
  pub storage : List (ℕ × StorageSlot)

abbrev pub EvmState : Type 0 → Type 0
EvmState Info = List (ℕ × Account Info)

abbrev pub no_versions : SlotVersions
no_versions = record { versions = []; readers = [] }

module _ {Info : Type 0} where
  abbrev pub new_layer : ℕ → RoundLayer Info
  new_layer commit_index = record {
    commit_index = commit_index;
    status = speculative;
    slot_versions = [];
    account_versions = [];
    pending_txs = none;
    tx_reads = [];
  }

module _ {Info Db : Type 0} where
  unfoldable pub new : Db → ℕ → ShadowDb Info Db
  new canonical coinbase = record {
    canonical = canonical;
    layers = [];
    current_tx = 0;
    current_commit_index = 0;
    coinbase = coinbase;
    last_finalized = none;
  }

  unfoldable pub set_current_tx : ShadowDb Info Db → ℕ → ℕ → ShadowDb Info Db
  set_current_tx s commit_index tx_idx = record s {
    current_commit_index = commit_index;
    current_tx = tx_idx;
  }

  -- `entry(commit_index).or_insert_with(RoundLayer::new)`
  unfoldable pub layer_at : ℕ → ShadowDb Info Db → RoundLayer Info
  layer_at commit_index s = or_default (new_layer commit_index) (Map.get commit_index s.layers)

  unfoldable pub ensure_layer : ShadowDb Info Db → ℕ → ShadowDb Info Db
  ensure_layer s commit_index = record s {
    layers = Map.insert commit_index (layer_at commit_index s) s.layers;
  }
