-- ===== src/Base/Set.antt =====
-- Ordered sets (BTreeSet, HashSet): lists kept in ascending order by `insert`.
use mathlib.Core.Path.{◌≡◌, refl}
use mathlib.Core.Bool.{Bool, false, ◌||◌}
use mathlib.Core.List.{List, [], ◌∷◌}
use native.Mathlib.Omega.{arith}
use dual_optimistic_l.Base.Tests.{if◌then◌else◌}
use dual_optimistic_l.Base.Key.{Key}

module _ {ℓ} {K : Type ℓ} ⦃o : Key K⦄ where
  unfoldable pub contains : K → List K → Bool
  contains k [] = false
  contains k (j ∷ s) = o.eqb k j || contains k s

  unfoldable pub insert : K → List K → List K
  insert k [] = k ∷ []
  insert k (j ∷ s) = if o.eqb k j then j ∷ s else if o.less k j then k ∷ j ∷ s else (j ∷ insert k s)

  unfoldable pub remove : K → List K → List K
  remove k [] = []
  remove k (j ∷ s) = if o.eqb k j then remove k s else (j ∷ remove k s)

  pub contains-insert :
      (j k : K) (s : List K) → contains j (insert k s) ≡ (o.eqb j k || contains j s)
  unfolding contains insert
  contains-insert j k [] = refl
  contains-insert j k (i ∷ s) =
      ground (arith, o.eqb_iff j k, o.eqb_iff k i, o.eqb_iff j i, contains-insert j k s)

  pub contains-remove :
      (j k : K) (s : List K) → contains j (remove k s) ≡ (if o.eqb j k then false else contains j s)
  unfolding contains remove
  contains-remove j k [] = ground arith
  contains-remove j k (i ∷ s) =
      ground (arith, o.eqb_iff j k, o.eqb_iff k i, o.eqb_iff j i, contains-remove j k s)
