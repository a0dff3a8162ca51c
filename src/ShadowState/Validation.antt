-- ===== src/ShadowState/Validation.antt =====
-- The read validation and the cascade of invalidation of crates/shadow-state/src/lib.rs.
pub mod Versions
pub mod Stale
pub mod Affected
pub mod Cascade
use dual_optimistic_l.Base.{
  ℕ, Bool, true, false, not, ◌&&◌, ◌||◌, Option, none, some, List, [], ◌∷◌, any, ltb, leb, ◌==◌,
  if◌then◌else◌,
}
use dual_optimistic_l.Base.Key.{nat_key, pair_key}
use dual_optimistic_l.Base.Map
use dual_optimistic_l.Base.Map.{Map}
use dual_optimistic_l.Base.Map.Values.{newest}
use dual_optimistic_l.Base.Set
use dual_optimistic_l.ShadowState.{
  SlotKey, VersionedValue, data_value, pending, absent, SlotVersions, LayerStatus, speculative,
  pending_commit, RoundLayer, ShadowDb,
}

-- `if let Data(val)` on a version below a transaction.
unfoldable pub data_below : ℕ → ℕ → VersionedValue → Option ℕ
data_below tx_idx k (data_value v) = if ltb k tx_idx then some v else none
data_below tx_idx k pending = none
data_below tx_idx k absent = none

unfoldable pub readlast_in_layer : SlotVersions → ℕ → Option ℕ
readlast_in_layer sv tx_idx = newest (data_below tx_idx) sv.versions

-- `current_val != Some(*expected_val)`
abbrev pub differs : Option ℕ → ℕ → Bool
differs none expected = true
differs (some v) expected = not (v == expected)

-- One recorded read: no versions in this round, or another value than the one read.
unfoldable pub is_stale : Option SlotVersions → ℕ → ℕ → Bool
is_stale none tx_idx expected = false
is_stale (some sv) tx_idx expected = differs (readlast_in_layer sv tx_idx) expected

unfoldable pub any_stale : Map SlotKey SlotVersions → ℕ → Map SlotKey ℕ → Bool
any_stale slots tx_idx [] = false
any_stale slots tx_idx ((k, expected) ∷ reads) =
    if is_stale (Map.get k slots) tx_idx expected then true else any_stale slots tx_idx reads

-- The transactions in ascending order, each once.
unfoldable pub stale_txs : Map SlotKey SlotVersions → Map ℕ (Map SlotKey ℕ) → List ℕ
stale_txs slots [] = []
stale_txs slots ((tx_idx, reads) ∷ m) =
    if any_stale slots tx_idx reads
    then Set.insert tx_idx (stale_txs slots m)
    else stale_txs slots m

-- A key among `changed_slots`.
unfoldable pub wrote_changed : List SlotKey → Map SlotKey SlotVersions → Bool
wrote_changed changed [] = false
wrote_changed changed ((k, sv) ∷ m) = Set.contains k changed || wrote_changed changed m

unfoldable pub read_keys_changed : List SlotKey → Map SlotKey ℕ → Bool
read_keys_changed changed [] = false
read_keys_changed changed ((k, v) ∷ m) = Set.contains k changed || read_keys_changed changed m

unfoldable pub read_changed : List SlotKey → Map ℕ (Map SlotKey ℕ) → Bool
read_changed changed [] = false
read_changed changed ((tx_idx, reads) ∷ m) =
    read_keys_changed changed reads || read_changed changed m

abbrev pub is_speculative : LayerStatus → Bool
is_speculative speculative = true
is_speculative pending_commit = false

module _ {Info : Type 0} where
  -- The tests of the loop, in its order.
  unfoldable pub is_affected : ℕ → List SlotKey → ℕ → RoundLayer Info → Bool
  is_affected base changed ci layer =
      if leb ci base
      then false
      else if is_speculative layer.status
      then wrote_changed changed layer.slot_versions || read_changed changed layer.tx_reads
      else false

  abbrev pub clear_speculation : RoundLayer Info → RoundLayer Info
  clear_speculation layer = record layer {
    slot_versions = [];
    account_versions = [];
    tx_reads = [];
  }

  unfoldable pub invalidate :
      ℕ → List SlotKey → Map ℕ (RoundLayer Info) → Map ℕ (RoundLayer Info) × List ℕ
  invalidate base changed [] = ([], [])
  invalidate base changed ((ci, layer) ∷ m) =
      let rest = invalidate base changed m in
      if is_affected base changed ci layer
      then ((ci, clear_speculation layer) ∷ rest.0, ci ∷ rest.1)
      else ((ci, layer) ∷ rest.0, rest.1)

module _ {Info Db : Type 0} where
  unfoldable pub validate_round : ShadowDb Info Db → ℕ → List ℕ
  validate_round s commit_index = elim (Map.get commit_index s.layers) [
    | none ↦ []
    | some layer ↦ stale_txs layer.slot_versions layer.tx_reads
  ]

  unfoldable pub cascade_invalidate :
      ShadowDb Info Db → ℕ → List SlotKey → ShadowDb Info Db × List ℕ
  cascade_invalidate s base changed =
      let r = invalidate base changed s.layers in (record s { layers = r.0 }, r.1)
