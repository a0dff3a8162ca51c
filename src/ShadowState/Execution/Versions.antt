-- ===== src/ShadowState/Execution/Versions.antt =====
-- What executing, aborting and re-executing a transaction does to the versions and readers of every
-- slot of every layer.
use dual_optimistic_l.Base.{
  ℕ, ◌≡◌, refl, ap, ◌∙◌, Bool, true, false, ◌&&◌, Option, none, some, List, [], ◌∷◌, ◌==◌,
  if◌then◌else◌, arith,
}
use dual_optimistic_l.Base.Key.{nat_key, pair_key}
use dual_optimistic_l.Base.Map
use dual_optimistic_l.Base.Map.{Map, get-insert, get-remove}
use dual_optimistic_l.Base.Map.Values.{or_default, on_some, or_else}
use dual_optimistic_l.ShadowState.{
  SlotKey, VersionedValue, data_value, SlotVersions, RoundLayer, StorageSlot, EvmState, no_versions,
}
use dual_optimistic_l.ShadowState.Execution.{write_slot, write_storage, write_state}

abbrev pub slot_in : SlotKey → Map SlotKey SlotVersions → SlotVersions
slot_in key m = or_default no_versions (Map.get key m)

-- The value that an execution leaves in a slot: the last change that it reports.
abbrev pub written_slot : ℕ → List (ℕ × StorageSlot) → Option ℕ
written_slot k [] = none
written_slot k ((key, slot) ∷ rest) =
    or_else (written_slot k rest)
      (if slot.is_changed && k == key then some slot.present_value else none)

abbrev pub written_value : {Info : Type 0} → ℕ → ℕ → EvmState Info → Option ℕ
written_value a k [] = none
written_value a k ((addr, account) ∷ rest) =
    or_else (written_value a k rest) (if a == addr then written_slot k account.storage else none)

abbrev pub as_data : Option ℕ → Option VersionedValue
as_data = on_some data_value

-- The versions of a slot after a write of transaction `t`.
abbrev rewritten : ℕ → ℕ → Option ℕ → SlotVersions → Option VersionedValue
rewritten j t o sv =
    if j == t then or_else (as_data o) (Map.get j sv.versions) else Map.get j sv.versions

write_slot-versions :
    (j t v : ℕ) (sv : SlotVersions)
    → Map.get j (write_slot t v sv).versions
      ≡ (if j == t then some (data_value v) else Map.get j sv.versions)
unfolding write_slot
write_slot-versions j t v sv = get-insert j t (data_value v) sv.versions

slot_in-insert :
    (a k b l : ℕ) (sv : SlotVersions) (m : Map SlotKey SlotVersions)
    → slot_in (a, k) (Map.insert (b, l) sv m) ≡ (if a == b && k == l then sv else slot_in (a, k) m)
slot_in-insert a k b l sv m = ground (arith, get-insert (a, k) (b, l) sv m)

-- One reported slot.
step-versions :
    (j t a k addr key v : ℕ) (changed : Bool) (m : Map SlotKey SlotVersions)
    → Map.get j
        (slot_in
          (a, k)
          (if changed
            then Map.insert (addr, key) (write_slot t v (slot_in (addr, key) m)) m
            else m)).versions
      ≡ rewritten j t
          (if a == addr then (if changed && k == key then some v else none) else none)
          (slot_in (a, k) m)
step-versions j t a k addr key v false m = ground arith
step-versions j t a k addr key v true m =
    rw (slot_in-insert a k addr key (write_slot t v (slot_in (addr, key) m)) m)
      (ground (arith, write_slot-versions j t v (slot_in (addr, key) m)))

-- Two writes of the same transaction, one after the other.
rewritten-twice :
    (j t : ℕ) (o p : Option ℕ) (x y z : Option VersionedValue)
    → y ≡ (if j == t then or_else (as_data p) x else x)
    → z ≡ (if j == t then or_else (as_data o) y else y)
    → z ≡ (if j == t then or_else (as_data (or_else o p)) x else x)
rewritten-twice j t none p x y z e f = ground arith
rewritten-twice j t (some v) p x y z e f = ground arith

or_else-if :
    (here : Bool) (o p : Option ℕ)
    → or_else (if here then o else none) (if here then p else none)
      ≡ (if here then or_else o p else none)
or_else-if true o p = refl
or_else-if false o p = refl

write_storage-versions :
    (j t a k addr : ℕ) (st : List (ℕ × StorageSlot)) (m : Map SlotKey SlotVersions)
    → Map.get j (slot_in (a, k) (write_storage t addr st m)).versions
      ≡ rewritten j t (if a == addr then written_slot k st else none) (slot_in (a, k) m)
unfolding write_storage
write_storage-versions j t a k addr [] m = ground arith
write_storage-versions j t a k addr ((key, slot) ∷ rest) m =
    rewritten-twice j t (if a == addr then written_slot k rest else none)
      (if a == addr
        then (if slot.is_changed && k == key then some slot.present_value else none)
        else none)
      _ _ _ (step-versions j t a k addr key slot.present_value slot.is_changed m)
      (write_storage-versions j t a k addr rest _)
    ∙ ap (λ o. rewritten j t o (slot_in (a, k) m)) (or_else-if (a == addr) _ _)

pub write_state-versions :
    {Info : Type 0} (c j t a k : ℕ) (st : EvmState Info) (layer : RoundLayer Info)
    → Map.get j (slot_in (a, k) (write_state c t st layer).slot_versions).versions
      ≡ rewritten j t (written_value a k st) (slot_in (a, k) layer.slot_versions)
unfolding write_state
write_state-versions c j t a k [] layer = ground arith
write_state-versions c j t a k ((addr, account) ∷ rest) layer =
    rewritten-twice j t (written_value a k rest)
      (if a == addr then written_slot k account.storage else none) _ _ _
      (write_storage-versions j t a k addr account.storage layer.slot_versions)
      (write_state-versions c j t a k rest _)
