-- ===== src/ShadowState/Readlast.antt =====
-- The READLAST lookups of crates/shadow-state/src/lib.rs. A found version is its layer, its writer,
-- its value and whether the writer is pending; the search from the newest layer stops at the first.
pub mod Reads
use dual_optimistic_l.Base.{
  ℕ, ◌⊎◌, inl, inr, Bool, true, false, not, ◌&&◌, ◌||◌, Option, none, some, List, [], ◌∷◌, ◌++◌,
  ltb, ◌==◌, if◌then◌else◌,
}
use dual_optimistic_l.Base.Key.{nat_key, pair_key}
use dual_optimistic_l.Base.Map
use dual_optimistic_l.Base.Map.{Map}
use dual_optimistic_l.Base.Map.Values.{or_default, update, newest}
use dual_optimistic_l.ShadowState.{
  SlotKey, VersionedValue, data_value, pending, absent, SlotVersions, AccountDiff, RoundLayer,
  ShadowDb, no_versions,
}
use dual_optimistic_l.ShadowState.Validation.{data_below}

pub record FoundVersion : Type 0 where
  pub writer_ci : ℕ
  pub writer_tx : ℕ
  pub value : ℕ
  pub was_pending : Bool

-- In the current round only the transactions before the reader are visible.
abbrev pub is_visible : ℕ → ℕ → ℕ → ℕ → Bool
is_visible current_ci current_tx ci k = if ci == current_ci then ltb k current_tx else true

-- A visible version that is not `Absent`.
unfoldable pub written : (ℕ → Bool) → ℕ → VersionedValue → Option (ℕ × VersionedValue)
written visible k absent = none
written visible k (data_value v) = if visible k then some (k, data_value v) else none
written visible k pending = if visible k then some (k, pending) else none

-- The match on the newest version: `Data`, or `Pending` with the data before it, or with the value
-- ZERO if there is none.
unfoldable pub found_in : ℕ → SlotVersions → Option (ℕ × VersionedValue) → Option FoundVersion
found_in ci sv none = none
found_in ci sv (some (w, data_value v)) =
    some (record { writer_ci = ci; writer_tx = w; value = v; was_pending = false })
found_in ci sv (some (w, pending)) = some (record {
  writer_ci = ci;
  writer_tx = w;
  value = or_default 0 (newest (data_below w) sv.versions);
  was_pending = true;
})
found_in ci sv (some (w, absent)) = none

-- `!was_pending || value != ZERO`
abbrev pub has_value : FoundVersion → Bool
has_value f = not f.was_pending || not (f.value == 0)

module _ {Info : Type 0} where
  unfoldable pub find_in_layer : SlotKey → ℕ → ℕ → ℕ → RoundLayer Info → Option FoundVersion
  find_in_layer key current_ci current_tx ci layer = elim (Map.get key layer.slot_versions) [
    | none ↦ none
    | some sv ↦ found_in ci sv (newest (written (is_visible current_ci current_tx ci)) sv.versions)
  ]

  -- `entry(slot).or_default().readers.entry(writer_tx).or_default().push(current_tx)`
  unfoldable pub add_reader : SlotKey → ℕ → ℕ → RoundLayer Info → RoundLayer Info
  add_reader key writer_tx current_tx layer =
      let sv = or_default no_versions (Map.get key layer.slot_versions) in
      let readers = or_default [] (Map.get writer_tx sv.readers) ++ current_tx ∷ [] in
      record layer {
        slot_versions =
            Map.insert key (record sv { readers = Map.insert writer_tx readers sv.readers })
              layer.slot_versions;
      }

  -- `tx_reads.entry(current_tx).or_default().insert(slot, value)`
  unfoldable pub add_read : SlotKey → ℕ → ℕ → RoundLayer Info → RoundLayer Info
  add_read key current_tx value layer = record layer {
    tx_reads =
        Map.insert current_tx
          (Map.insert key value (or_default [] (Map.get current_tx layer.tx_reads))) layer.tx_reads;
  }

  -- Phase 2: the reader is noted with the writer, and the value with the reader's layer.
  unfoldable pub note_read :
      SlotKey → ℕ → ℕ → FoundVersion → Map ℕ (RoundLayer Info) → Map ℕ (RoundLayer Info)
  note_read key current_ci current_tx f layers =
      let noted = update f.writer_ci (add_reader key f.writer_tx current_tx) layers in
      if has_value f then update current_ci (add_read key current_tx f.value) noted else noted

  abbrev pub visible_diff : (ℕ → Bool) → ℕ → AccountDiff Info → Option Info
  visible_diff visible k diff = if visible k then some diff.info else none

  unfoldable pub account_in_layer : ℕ → ℕ → ℕ → ℕ → RoundLayer Info → Option Info
  account_in_layer addr current_ci current_tx ci layer =
      elim (Map.get addr layer.account_versions) [
        | none ↦ none
        | some versions ↦ newest (visible_diff (is_visible current_ci current_tx ci)) versions
      ]

module _ {Info Db : Type 0} where
  unfoldable pub readlast_storage : ShadowDb Info Db → SlotKey → ℕ → ℕ → ShadowDb Info Db × Option ℕ
  readlast_storage s key current_ci current_tx =
      elim (newest (find_in_layer key current_ci current_tx) s.layers) [
        | none ↦ (s, none)
        | some f ↦ (
          record s { layers = note_read key current_ci current_tx f s.layers },
          if has_value f then some f.value else none,
        )
      ]

  unfoldable pub readlast_account : ShadowDb Info Db → ℕ → ℕ → ℕ → Option Info
  readlast_account s addr current_ci current_tx =
      newest (account_in_layer addr current_ci current_tx) s.layers

  -- The canonical database's own lookups, with their error type, are parameters.
  module _ {E : Type 0} (canonical_storage : Db → SlotKey → E ⊎ ℕ) where
    unfoldable pub storage_ref : ShadowDb Info Db → SlotKey → ShadowDb Info Db × (E ⊎ ℕ)
    storage_ref s key =
        let r = readlast_storage s key s.current_commit_index s.current_tx in
        elim r.1 [ none ↦ (r.0, canonical_storage r.0.canonical key) | some v ↦ (r.0, inr v) ]

  module _ {E : Type 0} (canonical_basic : Db → ℕ → E ⊎ Option Info) where
    unfoldable pub basic_ref : ShadowDb Info Db → ℕ → E ⊎ Option Info
    basic_ref s addr = elim (readlast_account s addr s.current_commit_index s.current_tx) [
      | none ↦ canonical_basic s.canonical addr
      | some info ↦ inr (some info)
    ]
