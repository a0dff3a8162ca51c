-- ===== src/ShadowState/Validation/Stale.antt =====
-- What the validation of a round vouches for.
use dual_optimistic_l.Base.{ℕ, ◌≡◌, some}
use dual_optimistic_l.Base.Key.{nat_key, pair_key}
use dual_optimistic_l.Base.Map
use dual_optimistic_l.Base.Map.{Map}
use dual_optimistic_l.Base.Set
use dual_optimistic_l.ShadowState.{SlotKey, SlotVersions, RoundLayer}
use dual_optimistic_l.ShadowState.Validation.Versions.{LastWrite}

-- The transaction `j` noted, of a slot with versions in the round, another value than the one that the
-- last transaction before it with data in these versions has written.
pub record HasStaleRead {Info : Type 0} (layer : RoundLayer Info) (j : ℕ) (reads : Map SlotKey ℕ)
    : Type 0 where
  pub key : SlotKey
  pub value : ℕ
  pub slot : SlotVersions
  pub noted : Map.get key reads ≡ some value
  pub has_versions : Map.get key layer.slot_versions ≡ some slot
  pub outdated : ¬ LastWrite slot.versions j value
