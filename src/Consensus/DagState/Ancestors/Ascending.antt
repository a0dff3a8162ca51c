-- ===== src/Consensus/DagState/Ancestors/Ascending.antt =====
-- Ascending lists of references, and DAGs that descend in rounds.
use dual_optimistic_l.Base.{
  suc, ◌+◌, ◌≤◌, ◌<◌, ◌≡◌, refl, inl, inr, Bool, true, Option, some, List, [], ◌∷◌, All, length,
  arith, Bool-cases, Option-cases,
}
use dual_optimistic_l.Base.Map
use dual_optimistic_l.Base.Map.{Map}
use dual_optimistic_l.Base.Set
use dual_optimistic_l.Consensus.DagState.{DagState, get_block}
use dual_optimistic_l.Consensus.DagState.Ancestors.{last, drop_last, extend}
use dual_optimistic_l.Consensus.DagState.Store.{IsKeyed}
use dual_optimistic_l.Consensus.Types.{
  BlockRef, VerifiedBlock, ref_eqb, ref_iff, ref_key, ref_less, ref_trans, ref_total,
}

abbrev pub AllLower : Map BlockRef VerifiedBlock → Type 0
AllLower [] = Unit
AllLower ((r, b) ∷ rest) = All (λ a. a.round < r.round) b.ancestors × AllLower rest

-- Every block of the DAG stands under its own reference, and names only ancestors of lower rounds.
pub record IsDescending (s : DagState) : Type 0 where
  pub keyed : IsKeyed s
  pub blocks : AllLower s.blocks
  pub genesis : AllLower s.genesis

get-lower :
    (r : BlockRef) {b : VerifiedBlock} (m : Map BlockRef VerifiedBlock)
    → AllLower m
    → Map.get r m ≡ some b
    → All (λ a. a.round < r.round) b.ancestors
unfolding Map.get
get-lower r [] h e = absurd (ground arith)
get-lower r {b} ((j, d) ∷ rest) h e = elim (Bool-cases (ref_eqb r j)) [
  | inl same ↦
      let k : d ≡ b = ground arith in let at_r : r ≡ j = (ref_iff r j).0 same in rw (← k, at_r) h.0
  | inr other ↦ get-lower r {b = b} rest h.1 (ground arith)
]

pub get_block-lower :
    (s : DagState) (r : BlockRef) {b : VerifiedBlock}
    → IsDescending s
    → get_block s r ≡ some b
    → All (λ a. a.round < r.round) b.ancestors
unfolding get_block
get_block-lower s r {b} k e = elim (Option-cases (Map.get r s.blocks)) [
  | inl e1 ↦ get-lower r {b = b} s.genesis k.genesis (ground arith)
  | inr (d, e1) ↦ get-lower r {b = b} s.blocks k.blocks (ground arith)
]

abbrev pub Below : BlockRef → List BlockRef → Type 0
Below r = All (λ x. ref_less x r ≡ true)

abbrev pub IsAscending : List BlockRef → Type 0
IsAscending [] = Unit
IsAscending (x ∷ xs) = All (λ y. ref_less x y ≡ true) xs × IsAscending xs

-- Every member passes `f`.
abbrev pub Passes : (BlockRef → Bool) → List BlockRef → Type 0
Passes f = All (λ x. f x ≡ true)

insert-Passes :
    (f : BlockRef → Bool) (a : BlockRef) (l : List BlockRef)
    → f a ≡ true
    → Passes f l
    → Passes f (Set.insert a l)
unfolding Set.insert
insert-Passes f a [] h k = (h, tt)
insert-Passes f a (b ∷ rest) h k = ground (arith, insert-Passes f a rest h k.1)

all_trans :
    (a b : BlockRef) (l : List BlockRef)
    → ref_less a b ≡ true
    → Passes (ref_less b) l
    → Passes (ref_less a) l
all_trans a b [] h k = tt
all_trans a b (c ∷ rest) h k = (ref_trans a b c h k.0, all_trans a b rest h k.1)

insert-IsAscending :
    (a : BlockRef) (l : List BlockRef) → IsAscending l → IsAscending (Set.insert a l)
unfolding Set.insert
insert-IsAscending a [] k = (tt, tt)
insert-IsAscending a (b ∷ rest) k = elim (Bool-cases (ref_eqb a b)) [
  | inl same ↦ rw same k
  | inr other ↦ elim (Bool-cases (ref_less a b)) [
    | inl less ↦ rw (other, less) ((less, all_trans a b rest less k.0), k)
    | inr more ↦
        rw (other, more)
          (
            insert-Passes (ref_less b) a rest (ref_total a b other more) k.0,
            insert-IsAscending a rest k.1,
          )
  ]
]

pub extend-Passes :
    (f : BlockRef → Bool) (l as_ : List BlockRef)
    → Passes f l
    → Passes f as_
    → Passes f (extend l as_)
unfolding extend
extend-Passes f l [] h k = h
extend-Passes f l (a ∷ rest) h k =
    extend-Passes f (Set.insert a l) rest (insert-Passes f a l k.0 h) k.1

pub extend-IsAscending : (l as_ : List BlockRef) → IsAscending l → IsAscending (extend l as_)
unfolding extend
extend-IsAscending l [] h = h
extend-IsAscending l (a ∷ rest) h =
    extend-IsAscending (Set.insert a l) rest (insert-IsAscending a l h)

insert-length : (a : BlockRef) (l : List BlockRef) → length (Set.insert a l) ≤ suc (length l)
unfolding Set.insert
insert-length a [] = omega arith
insert-length a (b ∷ rest) = ground (arith, insert-length a rest)

pub extend-length : (l as_ : List BlockRef) → length (extend l as_) ≤ length l + length as_
unfolding extend
extend-length l [] = omega arith
extend-length l (a ∷ rest) = omega (arith, extend-length (Set.insert a l) rest, insert-length a l)

some_inv : (x y : BlockRef) → ◌≡◌ {A = Option BlockRef} (some x) (some y) → x ≡ y
some_inv x y e = ground arith

drop-Passes : (f : BlockRef → Bool) (l : List BlockRef) → Passes f l → Passes f (drop_last l)
drop-Passes f [] k = tt
drop-Passes f (x ∷ []) k = tt
drop-Passes f (x ∷ y ∷ rest) k = (k.0, drop-Passes f (y ∷ rest) k.1)

pub last-Passes :
    (f : BlockRef → Bool) (l : List BlockRef) {r : BlockRef}
    → Passes f l
    → last l ≡ some r
    → f r ≡ true
last-Passes f [] k e = absurd (ground arith)
last-Passes f (x ∷ []) {r} k e = rw (← some_inv x r e) k.0
last-Passes f (x ∷ y ∷ rest) {r} k e = last-Passes f (y ∷ rest) {r = r} k.1 e

-- The last of an ascending list is above all others.
pub last_lem :
    (l : List BlockRef) {r : BlockRef}
    → IsAscending l
    → last l ≡ some r
    → Below r (drop_last l) × IsAscending (drop_last l) × (length l ≡ suc (length (drop_last l)))
last_lem [] k e = absurd (ground arith)
last_lem (x ∷ []) k e = (tt, tt, refl)
last_lem (x ∷ y ∷ rest) {r} k e =
    let (below, ascending, n) = last_lem (y ∷ rest) {r = r} k.1 e in
    (
      (last-Passes (ref_less x) (y ∷ rest) {r = r} k.0 e, below),
      (drop-Passes (ref_less x) (y ∷ rest) k.0, ascending),
      omega (arith, n),
    )
