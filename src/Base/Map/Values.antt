-- ===== src/Base/Map/Values.antt =====
-- Changes of a map's values in place, and the search from its last key down.
use dual_optimistic_l.Base.Tests.{if◌then◌else◌}
use mathlib.Core.Path.{◌≡◌, refl}
use mathlib.Core.Option.{Option, none, some}
use mathlib.Core.List.{[], ◌∷◌}
use native.Mathlib.Omega.{arith}
use dual_optimistic_l.Base.Key.{Key}
use dual_optimistic_l.Base.Map.{Map, get}

abbrev pub or_default {ℓ} : {A : Type ℓ} → A → Option A → A
or_default d none = d
or_default d (some a) = a

abbrev pub on_some {ℓ κ} : {A : Type ℓ} {B : Type κ} → (A → B) → Option A → Option B
on_some f none = none
on_some f (some a) = some (f a)

-- `first` if it is there, else `second`.
abbrev pub or_else {ℓ} : {A : Type ℓ} → Option A → Option A → Option A
or_else none second = second
or_else (some a) second = some a

module _ {ℓ κ} {K : Type ℓ} ⦃o : Key K⦄ {V : Type κ} where
  -- `values_mut` and `iter_mut`.
  unfoldable pub map_values : (V → V) → Map K V → Map K V
  map_values f [] = []
  map_values f ((k, v) ∷ m) = (k, f v) ∷ map_values f m

  -- `get_mut` on a key that may be missing.
  unfoldable pub update : K → (V → V) → Map K V → Map K V
  update k f [] = []
  update k f ((j, v) ∷ m) = if o.eqb k j then (j, f v) ∷ update k f m else ((j, v) ∷ update k f m)

  pub get-map_values :
      (k : K) (f : V → V) (m : Map K V) → get k (map_values f m) ≡ on_some f (get k m)
  unfolding get map_values
  get-map_values k f [] = refl
  get-map_values k f ((j, v) ∷ m) = ground (arith, get-map_values k f m)

  pub get-update :
      (j k : K) (f : V → V) (m : Map K V)
      → get j (update k f m) ≡ (if o.eqb j k then on_some f (get j m) else get j m)
  unfolding get update
  get-update j k f [] = ground arith
  get-update j k f ((i, v) ∷ m) =
      ground (arith, o.eqb_iff j k, o.eqb_iff k i, o.eqb_iff j i, get-update j k f m)

-- The answer of the last entry that gives one.
unfoldable pub newest {ℓ κ μ} :
    {K : Type ℓ} {V : Type κ} {A : Type μ} → (K → V → Option A) → Map K V → Option A
newest f [] = none
newest f ((k, v) ∷ m) = or_else (newest f m) (f k v)
