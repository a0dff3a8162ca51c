-- ===== src/Consensus/DagState/Outcome.antt =====
-- How a traversal of the DAG can end: with a result, by a panic, or, in the model only, for want of
-- fuel.
use dual_optimistic_l.Base.{◌≡◌, refl, Bool, true, false, arith}

pub data Outcome {ℓ} (A : Type ℓ) : Type ℓ where
  done : A → Outcome A
  panic : Outcome A
  out_of_fuel : Outcome A

infixl 5 ◌>>=◌
abbrev pub ◌>>=◌ {ℓ κ} : {A : Type ℓ} {B : Type κ} → Outcome A → (A → Outcome B) → Outcome B
done a >>= f = f a
panic >>= f = panic
out_of_fuel >>= f = out_of_fuel

-- A run that was done had both parts done.
pub >>=-eq-done {ℓ κ} :
    {A : Type ℓ} {B : Type κ} (m : Outcome A) (f : A → Outcome B) {b : B}
    → (m >>= f) ≡ done b
    → (a : A) × (m ≡ done a) × (f a ≡ done b)
>>=-eq-done (done a) f h = (a, refl, h)
>>=-eq-done panic f h = absurd (ground arith)
>>=-eq-done out_of_fuel f h = absurd (ground arith)

-- The fuel sufficed.
abbrev pub has_ended {ℓ} : {A : Type ℓ} → Outcome A → Bool
has_ended (done a) = true
has_ended panic = true
has_ended out_of_fuel = false

pub >>=-has_ended {ℓ κ} :
    {A : Type ℓ} {B : Type κ} (m : Outcome A) (f : A → Outcome B)
    → has_ended m ≡ true
    → ((a : A) → m ≡ done a → has_ended (f a) ≡ true)
    → has_ended (m >>= f) ≡ true
>>=-has_ended (done a) f h k = k a refl
>>=-has_ended panic f h k = refl
>>=-has_ended out_of_fuel f h k = cc

abbrev pub Ended {ℓ} : {A : Type ℓ} → Outcome A → Type 0
Ended m = has_ended m ≡ true
