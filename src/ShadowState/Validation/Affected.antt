-- ===== src/ShadowState/Validation/Affected.antt =====
-- Which layers a change of slots affects.
use dual_optimistic_l.Base.{
  ℕ, ◌<◌, ◌≡◌, ◌↔◌, ◌⊎◌, refl, inl, inr, Bool, true, false, ◌||◌, some, List, [], ◌∷◌, ==_iff, leb,
  if◌then◌else◌, arith, Bool-cases,
}
use dual_optimistic_l.Base.Key.{nat_key, pair_key, pair_eqb, pair_iff}
use dual_optimistic_l.Base.Map
use dual_optimistic_l.Base.Map.{Map}
use dual_optimistic_l.Base.Map.Order.{IsSorted, get_later}
use dual_optimistic_l.Base.Set
use dual_optimistic_l.ShadowState.{
  SlotKey, SlotVersions, LayerStatus, speculative, pending_commit, RoundLayer,
}
use dual_optimistic_l.ShadowState.Validation.{
  wrote_changed, read_keys_changed, read_changed, is_speculative, is_affected,
}

-- The layer's transactions wrote the slot, or noted a read of it.
pub record HasRead {Info : Type 0} (layer : RoundLayer Info) (key : SlotKey) : Type 0 where
  pub reader : ℕ
  pub reads : Map SlotKey ℕ
  pub value : ℕ
  pub has_reads : Map.get reader layer.tx_reads ≡ some reads
  pub noted : Map.get key reads ≡ some value

abbrev pub HasWritten : {Info : Type 0} → RoundLayer Info → SlotKey → Type 0
HasWritten layer key = (sv : SlotVersions) × (Map.get key layer.slot_versions ≡ some sv)

-- The layer comes after the base, is speculative, and wrote or read a changed slot.
pub record IsAffected {Info : Type 0} (base : ℕ) (changed : List SlotKey) (ci : ℕ)
    (layer : RoundLayer Info) : Type 0 where
  pub after_base : base < ci
  pub speculates : layer.status ≡ speculative
  pub slot : SlotKey
  pub changes : Set.contains slot changed ≡ true
  pub touched : HasWritten layer slot ⊎ HasRead layer slot

or_inv : (x y : Bool) → (x || y) ≡ true → (x ≡ true) ⊎ (y ≡ true)
or_inv true y h = inl refl
or_inv false y h = inr h

or_left : (x y : Bool) → x ≡ true → (x || y) ≡ true
or_left x y h = ground arith

or_right : (x y : Bool) → y ≡ true → (x || y) ≡ true
or_right x y h = ground arith

-- A key that a map has, with an entry in front of it.
with_entry {ℓ} :
    {A : Type ℓ} (key k : SlotKey) (x : A) (m : Map SlotKey A)
    → ((a : A) × (Map.get key m ≡ some a))
    → (a : A) × (Map.get key ((k, x) ∷ m) ≡ some a)
unfolding Map.get
with_entry key k x m (a, e) = elim (Bool-cases (pair_eqb key k)) [
  | inl same ↦ (x, rw (same, Map.get))
  | inr other ↦ (a, rw (other, Map.get) e)
]

first_entry {ℓ} :
    {A : Type ℓ} (k : SlotKey) (x : A) (m : Map SlotKey A) → Map.get k ((k, x) ∷ m) ≡ some x
unfolding Map.get
first_entry k x m = let self : pair_eqb k k ≡ true = (pair_iff k k).1 refl in rw (self, Map.get)

wrote_changed_inv :
    (changed : List SlotKey) (m : Map SlotKey SlotVersions)
    → wrote_changed changed m ≡ true
    → (key : SlotKey) × (Set.contains key changed ≡ true)
      × ((sv : SlotVersions) × (Map.get key m ≡ some sv))
unfolding wrote_changed
wrote_changed_inv changed [] h = absurd (ground arith)
wrote_changed_inv changed ((k, sv) ∷ m) h =
    elim (or_inv (Set.contains k changed) (wrote_changed changed m) h) [
      | inl here ↦ (k, here, (sv, first_entry k sv m))
      | inr there ↦
          let (key, c, e) = wrote_changed_inv changed m there in (key, c, with_entry key k sv m e)
    ]

wrote_changed-get :
    (changed : List SlotKey) (m : Map SlotKey SlotVersions) (key : SlotKey) {sv : SlotVersions}
    → Set.contains key changed ≡ true
    → Map.get key m ≡ some sv
    → wrote_changed changed m ≡ true
unfolding wrote_changed Map.get
wrote_changed-get changed [] key c e = absurd (ground arith)
wrote_changed-get changed ((k, x) ∷ m) key {sv} c e =
    ground (arith, pair_iff key k, wrote_changed-get changed m key {sv = sv} c)

read_keys_inv :
    (changed : List SlotKey) (m : Map SlotKey ℕ)
    → read_keys_changed changed m ≡ true
    → (key : SlotKey) × (Set.contains key changed ≡ true) × ((v : ℕ) × (Map.get key m ≡ some v))
unfolding read_keys_changed
read_keys_inv changed [] h = absurd (ground arith)
read_keys_inv changed ((k, v) ∷ m) h =
    elim (or_inv (Set.contains k changed) (read_keys_changed changed m) h) [
      | inl here ↦ (k, here, (v, first_entry k v m))
      | inr there ↦
          let (key, c, e) = read_keys_inv changed m there in (key, c, with_entry key k v m e)
    ]

read_keys-get :
    (changed : List SlotKey) (m : Map SlotKey ℕ) (key : SlotKey) {v : ℕ}
    → Set.contains key changed ≡ true
    → Map.get key m ≡ some v
    → read_keys_changed changed m ≡ true
unfolding read_keys_changed Map.get
read_keys-get changed [] key c e = absurd (ground arith)
read_keys-get changed ((k, x) ∷ m) key {v} c e =
    ground (arith, pair_iff key k, read_keys-get changed m key {v = v} c)

read_changed_inv :
    (changed : List SlotKey) (m : Map ℕ (Map SlotKey ℕ))
    → IsSorted m
    → read_changed changed m ≡ true
    → (j : ℕ) × (reads : Map SlotKey ℕ) × (Map.get j m ≡ some reads)
      × (read_keys_changed changed reads ≡ true)
unfolding read_changed Map.get
read_changed_inv changed [] s h = absurd (ground arith)
read_changed_inv changed ((k, reads) ∷ m) s h =
    elim (or_inv (read_keys_changed changed reads) (read_changed changed m) h) [
      | inl here ↦ (k, reads, rw (Map.get, (==_iff k k).1 refl), here)
      | inr there ↦
          let (j, r, e, c) = read_changed_inv changed m s.1 there in
          (j, r, get_later j k reads m {v = r} s.0 e, c)
    ]

read_changed-get :
    (changed : List SlotKey) (m : Map ℕ (Map SlotKey ℕ)) (j : ℕ) {reads : Map SlotKey ℕ}
    → Map.get j m ≡ some reads
    → read_keys_changed changed reads ≡ true
    → read_changed changed m ≡ true
unfolding read_changed Map.get
read_changed-get changed [] j e c = absurd (ground arith)
read_changed-get changed ((k, x) ∷ m) j {reads} e c =
    ground (arith, ==_iff j k, read_changed-get changed m j {reads = reads})

is_affected_inv :
    {Info : Type 0} (base : ℕ) (changed : List SlotKey) (ci : ℕ) (layer : RoundLayer Info)
    → is_affected base changed ci layer ≡ true
    → (base < ci)
      × (layer.status ≡ speculative)
      × ((wrote_changed changed layer.slot_versions || read_changed changed layer.tx_reads) ≡ true)
unfolding is_affected
is_affected_inv base changed ci layer h = elim (Bool-cases (leb ci base)) [
  | inl low ↦ absurd (clash (rw (low, is_affected) at h))
  | inr high ↦
      let g = rw (high, is_affected) at h in
      (not_low ci base high, open_ layer.status _ g, test layer.status _ g)
]
  where
    clash : ¬ (false ≡ true)
    clash h = absurd (ground arith)

    not_low : (a b : ℕ) → leb a b ≡ false → b < a
    not_low a b h = ground arith

    open_ :
        (status : LayerStatus) (x : Bool)
        → (if is_speculative status then x else false) ≡ true
        → status ≡ speculative
    open_ speculative x h = refl
    open_ pending_commit x h = absurd (ground arith)

    test :
        (status : LayerStatus) (x : Bool)
        → (if is_speculative status then x else false) ≡ true
        → x ≡ true
    test speculative x h = h
    test pending_commit x h = absurd (ground arith)

-- The tests of the loop find exactly the affected layers, where the noted reads stand in the order of
-- their transactions.
pub is_affected_iff :
    {Info : Type 0} (base : ℕ) (changed : List SlotKey) (ci : ℕ) (layer : RoundLayer Info)
    → IsSorted layer.tx_reads
    → (is_affected base changed ci layer ≡ true) ↔ IsAffected base changed ci layer
unfolding is_affected
is_affected_iff base changed ci layer sorted = (to, from)
  where
    to : is_affected base changed ci layer ≡ true → IsAffected base changed ci layer
    to h =
        let (after, status, test) = is_affected_inv base changed ci layer h in
        elim (or_inv (wrote_changed changed layer.slot_versions)
          (read_changed changed layer.tx_reads) test) [
            | inl wrote ↦
                let (key, c, e) = wrote_changed_inv changed layer.slot_versions wrote in
                record {
                  after_base = after;
                  speculates = status;
                  slot = key;
                  changes = c;
                  touched = inl e;
                }
            | inr read ↦
                let (j, reads, e, k) = read_changed_inv changed layer.tx_reads sorted read in
                let (key, c, (v, noted)) = read_keys_inv changed reads k in
                record {
                  after_base = after;
                  speculates = status;
                  slot = key;
                  changes = c;
                  touched = inr (record {
                    reader = j;
                    reads = reads;
                    value = v;
                    has_reads = e;
                    noted = noted;
                  });
                }
          ]

    wrote_or_read :
        (key : SlotKey)
        → Set.contains key changed ≡ true
        → HasWritten layer key ⊎ HasRead layer key
        → (wrote_changed changed layer.slot_versions || read_changed changed layer.tx_reads) ≡ true
    wrote_or_read key c (inl (sv, e)) =
        or_left _ _ (wrote_changed-get changed layer.slot_versions key {sv = sv} c e)
    wrote_or_read key c (inr r) = or_right _ _ (
        read_changed-get changed layer.tx_reads r.reader {reads = r.reads} r.has_reads
          (read_keys-get changed r.reads key {v = r.value} c r.noted))

    from : IsAffected base changed ci layer → is_affected base changed ci layer ≡ true
    from a =
        let high : leb ci base ≡ false = above base ci a.after_base in
        rw (is_affected, high, a.speculates) (wrote_or_read a.slot a.changes a.touched)
      where
        above : (x y : ℕ) → x < y → leb y x ≡ false
        above x y h = ground arith
