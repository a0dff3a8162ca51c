-- ===== src/Base/Key.antt =====
-- Keys with a decidable equality and a total order: Rust's derived `Eq` and `Ord`.
use Prim.Native.Nat.{ℕ}
use mathlib.Core.Path.{◌≡◌, refl}
use mathlib.Core.Logic.{◌↔◌}
use mathlib.Core.Bool.{Bool, true, false, ◌&&◌, ◌||◌}
use native.Mathlib.Omega.{arith}
use dual_optimistic_l.Base.Tests.{ltb, ◌==◌, ==_iff}

pub record Key {ℓ} (K : Type ℓ) : Type ℓ where
  pub eqb : K → K → Bool
  pub less : K → K → Bool
  pub eqb_iff : (a b : K) → (eqb a b ≡ true) ↔ (a ≡ b)
  pub less_irrefl : (a : K) → less a a ≡ false
  pub less_trans : (a b c : K) → less a b ≡ true → less b c ≡ true → less a c ≡ true
  pub less_total : (a b : K) → eqb a b ≡ false → less a b ≡ false → less b a ≡ true

pub eqb_refl {ℓ} : {K : Type ℓ} ⦃o : Key K⦄ (k : K) → o.eqb k k ≡ true
eqb_refl ⦃o⦄ k = (o.eqb_iff k k).1 refl

pub nat_irrefl : (a : ℕ) → ltb a a ≡ false
nat_irrefl a = ground arith

pub nat_trans : (a b c : ℕ) → ltb a b ≡ true → ltb b c ≡ true → ltb a c ≡ true
nat_trans a b c h k = ground arith

pub nat_total : (a b : ℕ) → (a == b) ≡ false → ltb a b ≡ false → ltb b a ≡ true
nat_total a b h k = ground arith

instance abbrev pub nat_key : Key ℕ
nat_key = record {
  eqb = ◌==◌;
  less = ltb;
  eqb_iff = ==_iff;
  less_irrefl = nat_irrefl;
  less_trans = nat_trans;
  less_total = nat_total;
}

-- Pairs in lexicographic order.
abbrev pub pair_eqb : ℕ × ℕ → ℕ × ℕ → Bool
pair_eqb (a, b) (c, d) = a == c && b == d

abbrev pub pair_less : ℕ × ℕ → ℕ × ℕ → Bool
pair_less (a, b) (c, d) = ltb a c || (a == c && ltb b d)

pub pair_iff : (p q : ℕ × ℕ) → (pair_eqb p q ≡ true) ↔ (p ≡ q)
pair_iff (a, b) (c, d) = ground arith

pub pair_irrefl : (p : ℕ × ℕ) → pair_less p p ≡ false
pair_irrefl (a, b) = ground arith

pub pair_trans :
    (p q r : ℕ × ℕ) → pair_less p q ≡ true → pair_less q r ≡ true → pair_less p r ≡ true
pair_trans (a, b) (c, d) (e, f) h k = ground arith

pub pair_total : (p q : ℕ × ℕ) → pair_eqb p q ≡ false → pair_less p q ≡ false → pair_less q p ≡ true
pair_total (a, b) (c, d) h k = ground arith

instance abbrev pub pair_key : Key (ℕ × ℕ)
pair_key = record {
  eqb = pair_eqb;
  less = pair_less;
  eqb_iff = pair_iff;
  less_irrefl = pair_irrefl;
  less_trans = pair_trans;
  less_total = pair_total;
}
