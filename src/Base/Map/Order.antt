-- ===== src/Base/Map/Order.antt =====
-- The ascending order of a map's keys, and what follows from it.
use Prim.Native.Nat.{◌≤◌}
use mathlib.Core.Path.{◌≡◌, refl}
use mathlib.Core.Bool.{true}
use mathlib.Core.List.{[], ◌∷◌}
use mathlib.Core.Option.{none, some}
use native.Mathlib.Omega.{arith}
use dual_optimistic_l.Base.Lists.{length}
use dual_optimistic_l.Base.Key.{Key}
use dual_optimistic_l.Base.Map.{Map, get, insert, remove}

module _ {ℓ κ} {K : Type ℓ} ⦃o : Key K⦄ {V : Type κ} where
  -- Every key lies above `k`.
  abbrev pub Above : K → Map K V → Type 0
  Above k [] = Unit
  Above k ((j, v) ∷ m) = (o.less k j ≡ true) × Above k m

  abbrev pub IsSorted : Map K V → Type 0
  IsSorted [] = Unit
  IsSorted ((j, v) ∷ m) = Above j m × IsSorted m

  pub Above-trans : (i k : K) (m : Map K V) → o.less i k ≡ true → Above k m → Above i m
  Above-trans i k [] h a = tt
  Above-trans i k ((j, v) ∷ m) h a = (o.less_trans i k j h a.0, Above-trans i k m h a.1)

  pub insert-Above :
      (i k : K) (v : V) (m : Map K V) → o.less i k ≡ true → Above i m → Above i (insert k v m)
  unfolding insert
  insert-Above i k v [] h a = (h, tt)
  insert-Above i k v ((j, w) ∷ m) h a = ground (arith, insert-Above i k v m h a.1)

  pub insert-IsSorted : (k : K) (v : V) (m : Map K V) → IsSorted m → IsSorted (insert k v m)
  unfolding insert
  insert-IsSorted k v [] s = (tt, tt)
  insert-IsSorted k v ((j, w) ∷ m) s = ground (
    arith,
    o.eqb_iff k j,
    o.less_total k j,
    Above-trans k j m,
    insert-Above j k v m,
    insert-IsSorted k v m s.1,
  )

  pub remove-Above : (i k : K) (m : Map K V) → Above i m → Above i (remove k m)
  unfolding remove
  remove-Above i k [] a = tt
  remove-Above i k ((j, w) ∷ m) a = ground (arith, remove-Above i k m a.1)

  pub remove-IsSorted : (k : K) (m : Map K V) → IsSorted m → IsSorted (remove k m)
  unfolding remove
  remove-IsSorted k [] s = tt
  remove-IsSorted k ((j, w) ∷ m) s = ground (arith, remove-Above j k m s.0, remove-IsSorted k m s.1)

  pub get_below : (k : K) (m : Map K V) → Above k m → get k m ≡ none
  unfolding get
  get_below k [] a = refl
  get_below k ((j, w) ∷ m) a = ground (arith, o.eqb_iff k j, o.less_irrefl k, get_below k m a.1)

  -- What is found among the later entries is found with an entry below them.
  pub get_later :
      (i k : K) (w : V) (m : Map K V) {v : V}
      → Above k m
      → get i m ≡ some v
      → get i ((k, w) ∷ m) ≡ some v
  unfolding get
  get_later i k w m {v} a e = ground (arith, o.eqb_iff i k, o.less_irrefl k, get_below k m a)

  pub get-Above : (i k : K) (m : Map K V) {v : V} → Above k m → get i m ≡ some v → o.less k i ≡ true
  unfolding get
  get-Above i k [] a e = absurd (ground arith)
  get-Above i k ((j, w) ∷ m) {v} a e = ground (arith, o.eqb_iff i j, get-Above i k m {v = v} a.1)

  pub length-remove-le : (k : K) (m : Map K V) → length (remove k m) ≤ length m
  unfolding remove
  length-remove-le k [] = omega arith
  length-remove-le k ((j, w) ∷ m) = ground (arith, length-remove-le k m)
