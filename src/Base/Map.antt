-- ===== src/Base/Map.antt =====
-- Ordered maps (BTreeMap, and HashMap where the order of iteration does not show): association
-- lists kept in ascending order of their keys by `insert`.
pub mod Order
pub mod Values
use mathlib.Core.Path.{◌≡◌, refl}
use mathlib.Core.List.{List, [], ◌∷◌}
use mathlib.Core.Option.{Option, none, some}
use native.Mathlib.Omega.{arith}
use dual_optimistic_l.Base.Tests.{if◌then◌else◌}
use dual_optimistic_l.Base.Key.{Key}

abbrev pub Map {ℓ κ} : Type ℓ → Type κ → Type (ℓ ⊔ κ)
Map K V = List (K × V)

module _ {ℓ κ} {K : Type ℓ} ⦃o : Key K⦄ {V : Type κ} where
  unfoldable pub get : K → Map K V → Option V
  get k [] = none
  get k ((j, v) ∷ m) = if o.eqb k j then some v else get k m

  unfoldable pub insert : K → V → Map K V → Map K V
  insert k v [] = (k, v) ∷ []
  insert k v ((j, w) ∷ m) =
      if o.eqb k j
      then (k, v) ∷ m
      else if o.less k j
      then (k, v) ∷ (j, w) ∷ m
      else ((j, w) ∷ insert k v m)

  unfoldable pub remove : K → Map K V → Map K V
  remove k [] = []
  remove k ((j, w) ∷ m) = if o.eqb k j then remove k m else ((j, w) ∷ remove k m)

  pub get-insert :
      (j k : K) (v : V) (m : Map K V)
      → get j (insert k v m) ≡ (if o.eqb j k then some v else get j m)
  unfolding get insert
  get-insert j k v [] = refl
  get-insert j k v ((i, w) ∷ m) =
      ground (arith, o.eqb_iff j k, o.eqb_iff k i, o.eqb_iff j i, get-insert j k v m)

  pub get-remove :
      (j k : K) (m : Map K V) → get j (remove k m) ≡ (if o.eqb j k then none else get j m)
  unfolding get remove
  get-remove j k [] = ground arith
  get-remove j k ((i, w) ∷ m) =
      ground (arith, o.eqb_iff j k, o.eqb_iff k i, o.eqb_iff j i, get-remove j k m)
