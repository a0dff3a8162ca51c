-- ===== src/ShadowState/Validation/Versions.antt =====
-- Which version of a slot the lookup within a round finds.
use dual_optimistic_l.Base.{
  ℕ, ◌<◌, ◌≡◌, ◌≢◌, ◌↔◌, ◌⊎◌, refl, sym, ◌∙◌, inl, inr, true, false, Option, none, some, [], ◌∷◌,
  ◌==◌, ==_iff, ltb, lt→ltb, ltb→lt, ap, arith, Bool-cases, Option-cases,
}
use dual_optimistic_l.Base.Key.{nat_key}
use dual_optimistic_l.Base.Map
use dual_optimistic_l.Base.Map.{Map}
use dual_optimistic_l.Base.Map.Order.{IsSorted, get_later, get-Above}
use dual_optimistic_l.Base.Map.Values.{newest, or_else}
use dual_optimistic_l.ShadowState.{VersionedValue, data_value, pending, absent, SlotVersions}
use dual_optimistic_l.ShadowState.Validation.{data_below, readlast_in_layer}

-- `v` is what the last transaction before `j` with data in the versions has written.
pub record LastWrite (m : Map ℕ VersionedValue) (j v : ℕ) : Type 0 where
  pub writer : ℕ
  pub before : writer < j
  pub wrote : Map.get writer m ≡ some (data_value v)
  pub is_last : (k w : ℕ) → writer < k → k < j → Map.get k m ≢ some (data_value w)

or_else-none : (a b : Option ℕ) → or_else a b ≡ none → (a ≡ none) × (b ≡ none)
or_else-none none b h = (refl, h)
or_else-none (some x) b h = absurd (ground arith)

or_else-some :
    (a b : Option ℕ) (v : ℕ) → or_else a b ≡ some v → (a ≡ some v) ⊎ ((a ≡ none) × (b ≡ some v))
or_else-some none b v h = inr (refl, h)
or_else-some (some x) b v h = inl h

data_below-data : (j k w : ℕ) → k < j → data_below j k (data_value w) ≡ some w
unfolding data_below
data_below-data j k w h = rw (lt→ltb k j h)

data_below-some :
    (j k : ℕ) (x : VersionedValue) (v : ℕ)
    → data_below j k x ≡ some v
    → (x ≡ data_value v) × (k < j)
unfolding data_below
data_below-some j k (data_value w) v h = ground arith
data_below-some j k pending v h = absurd (ground arith)
data_below-some j k absent v h = absurd (ground arith)

get_first :
    (k i : ℕ) (x y : VersionedValue) (m : Map ℕ VersionedValue)
    → (k == i) ≡ true
    → Map.get k ((i, x) ∷ m) ≡ some y
    → x ≡ y
unfolding Map.get
get_first k i x y m h e = ground arith

get_next :
    (k i : ℕ) (x y : VersionedValue) (m : Map ℕ VersionedValue)
    → (k == i) ≡ false
    → Map.get k ((i, x) ∷ m) ≡ some y
    → Map.get k m ≡ some y
unfolding Map.get
get_next k i x y m h e = rw h at e

newest-none :
    (m : Map ℕ VersionedValue) (j k w : ℕ)
    → newest (data_below j) m ≡ none
    → k < j
    → Map.get k m ≢ some (data_value w)
unfolding newest Map.get
newest-none [] j k w h l e = absurd (ground arith)
newest-none ((i, x) ∷ m) j k w h l e =
    let (later, here) = or_else-none (newest (data_below j) m) (data_below j i x) h in
    elim (Bool-cases (k == i)) [
      | inl same ↦
          let at_k : data_below j k (data_value w) ≡ none =
            rw ((==_iff k i).0 same, ← (get_first k i x (data_value w) m same e)) here in
          clash (sym at_k ∙ data_below-data j k w l)
      | inr other ↦ newest-none m j k w later l (get_next k i x (data_value w) m other e)
    ]
  where
    clash : ¬ (◌≡◌ {A = Option ℕ} none (some w))
    clash e = absurd (ground arith)

pub newest-LastWrite :
    (m : Map ℕ VersionedValue) (j v : ℕ)
    → IsSorted m
    → newest (data_below j) m ≡ some v
    → LastWrite m j v
unfolding newest Map.get
newest-LastWrite [] j v s h = absurd (ground arith)
newest-LastWrite ((i, x) ∷ m) j v s h =
    elim (or_else-some (newest (data_below j) m) (data_below j i x) v h) [
      | inl later ↦ lift (newest-LastWrite m j v s.1 later)
      | inr (nothing, here) ↦
          let (has_data, below) = data_below-some j i x v here in
          record {
            writer = i;
            before = below;
            wrote = rw (Map.get, (==_iff i i).1 refl, has_data);
            is_last = λ k w l b e.
                newest-none m j k w nothing b (get_next k i x (data_value w) m (above i k l) e);
          }
    ]
  where
    above : (a b : ℕ) → a < b → (b == a) ≡ false
    above a b h = ground arith

    lift : LastWrite m j v → LastWrite ((i, x) ∷ m) j v
    lift last =
        let after : i < last.writer =
          ltb→lt i last.writer (get-Above last.writer i m {v = data_value v} s.0 last.wrote) in
        record {
          writer = last.writer;
          before = last.before;
          wrote = get_later last.writer i x m {v = data_value v} s.0 last.wrote;
          is_last = λ k w l b e.
              last.is_last k w l b (get_next k i x (data_value w) m (above i k (omega arith)) e);
        }

LastWrite-unique :
    (m : Map ℕ VersionedValue) (j v w : ℕ) → LastWrite m j v → LastWrite m j w → v ≡ w
LastWrite-unique m j v w a b = elim (Bool-cases (ltb a.writer b.writer)) [
  | inl below ↦ absurd (a.is_last b.writer w (ltb→lt _ _ below) b.before b.wrote)
  | inr not_below ↦ elim (Bool-cases (ltb b.writer a.writer)) [
    | inl above ↦ absurd (b.is_last a.writer v (ltb→lt _ _ above) a.before a.wrote)
    | inr not_above ↦
        let same : a.writer ≡ b.writer = equal a.writer b.writer not_below not_above in
        same_data (sym a.wrote ∙ rw same b.wrote)
  ]
]
  where
    equal : (x y : ℕ) → ltb x y ≡ false → ltb y x ≡ false → x ≡ y
    equal x y h k = ground arith

    same_data : ◌≡◌ {A = Option VersionedValue} (some (data_value v)) (some (data_value w)) → v ≡ w
    same_data e = ground arith

-- On the versions in ascending order, a lookup by `j` gives `v` exactly if the last write before `j`
-- wrote it.
pub readlast_in_layer_iff :
    (sv : SlotVersions) (j v : ℕ)
    → IsSorted sv.versions
    → (readlast_in_layer sv j ≡ some v) ↔ LastWrite sv.versions j v
unfolding readlast_in_layer
readlast_in_layer_iff sv j v s = (
  newest-LastWrite sv.versions j v s,
  λ last. elim (Option-cases (newest (data_below j) sv.versions)) [
    | inl nothing ↦ absurd (newest-none sv.versions j last.writer v nothing last.before last.wrote)
    | inr (w, e) ↦
        e ∙ ap some (LastWrite-unique sv.versions j w v (newest-LastWrite sv.versions j w s e) last)
  ],
)
