-- ===== src/ShadowState/Validation/Cascade.antt =====
-- What a cascade of invalidation leaves behind.
use dual_optimistic_l.Base.{
  ℕ, ◌≡◌, ◌↔◌, refl, sym, ◌∙◌, inl, inr, Bool, true, false, ◌||◌, some, List, [], ◌∷◌, ◌==◌, ==_iff,
  ltb, if◌then◌else◌, arith, Bool-cases, if_intro,
}
use dual_optimistic_l.Base.Key.{nat_key, pair_key}
use dual_optimistic_l.Base.Map
use dual_optimistic_l.Base.Map.{Map}
use dual_optimistic_l.Base.Map.Order.{Above, IsSorted}
use dual_optimistic_l.Base.Set
use dual_optimistic_l.ShadowState.{SlotKey, RoundLayer, ShadowDb}
use dual_optimistic_l.ShadowState.Validation.{
  wrote_changed, read_changed, is_affected, clear_speculation, invalidate, cascade_invalidate,
}
use dual_optimistic_l.ShadowState.Validation.Affected.{IsAffected, is_affected_iff}

-- A layer without its speculation.
abbrev pub cleared : {Info : Type 0} → RoundLayer Info → RoundLayer Info
cleared layer = record {
  commit_index = layer.commit_index;
  status = layer.status;
  slot_versions = [];
  account_versions = [];
  pending_txs = layer.pending_txs;
  tx_reads = [];
}

-- One layer of the loop.
abbrev keep_or_clear :
    {Info : Type 0}
    → Bool
    → ℕ
    → RoundLayer Info
    → Map ℕ (RoundLayer Info) × List ℕ
    → Map ℕ (RoundLayer Info) × List ℕ
keep_or_clear affected k layer rest =
    if affected
    then ((k, clear_speculation layer) ∷ rest.0, k ∷ rest.1)
    else ((k, layer) ∷ rest.0, rest.1)

keep_or_clear-same :
    {Info : Type 0} (affected : Bool) (k : ℕ) (layer : RoundLayer Info)
    (rest : Map ℕ (RoundLayer Info) × List ℕ)
    → Set.contains k rest.1 ≡ false
    → (Map.get k (keep_or_clear affected k layer rest).0
        ≡ some (if affected then clear_speculation layer else layer))
      × (Set.contains k (keep_or_clear affected k layer rest).1 ≡ affected)
unfolding Map.get Set.contains
keep_or_clear-same true k layer rest h =
    let self : (k == k) ≡ true = ground arith in rw self (refl, refl)
keep_or_clear-same false k layer rest h =
    let self : (k == k) ≡ true = ground arith in rw self (refl, h)

keep_or_clear-other :
    {Info : Type 0} (affected : Bool) (ci k : ℕ) (layer : RoundLayer Info)
    (rest : Map ℕ (RoundLayer Info) × List ℕ)
    → (ci == k) ≡ false
    → (Map.get ci (keep_or_clear affected k layer rest).0 ≡ Map.get ci rest.0)
      × (Set.contains ci (keep_or_clear affected k layer rest).1 ≡ Set.contains ci rest.1)
unfolding Map.get Set.contains
keep_or_clear-other true ci k layer rest h = rw h (refl, refl)
keep_or_clear-other false ci k layer rest h = rw h (refl, refl)

get_head :
    {Info : Type 0} (ci k : ℕ) (l : RoundLayer Info) (m : Map ℕ (RoundLayer Info))
    {layer : RoundLayer Info}
    → (ci == k) ≡ true
    → Map.get ci ((k, l) ∷ m) ≡ some layer
    → l ≡ layer
unfolding Map.get
get_head ci k l m h e = ground arith

get_tail :
    {Info : Type 0} (ci k : ℕ) (l : RoundLayer Info) (m : Map ℕ (RoundLayer Info))
    {layer : RoundLayer Info}
    → (ci == k) ≡ false
    → Map.get ci ((k, l) ∷ m) ≡ some layer
    → Map.get ci m ≡ some layer
unfolding Map.get
get_tail ci k l m h e = rw h at e

get-nil : {A : Type 0} (ci : ℕ) {x : A} → Map.get ci [] ≡ some x → ⊥
unfolding Map.get
get-nil ci e = ground arith

listed-Above :
    {Info : Type 0} (base : ℕ) (changed : List SlotKey) (m : Map ℕ (RoundLayer Info)) (ci : ℕ)
    → Above ci m
    → Set.contains ci (invalidate base changed m).1 ≡ false
unfolding invalidate Set.contains
listed-Above base changed [] ci a = refl
listed-Above base changed ((k, l) ∷ m) ci a =
    let ih = listed-Above base changed m ci a.1 in
    if_intro (λ (r : Map ℕ (RoundLayer _) × List ℕ). Set.contains ci r.1 ≡ false)
      (is_affected base changed k l) _ _ (λ _. both (ci == k) _ (below ci k a.0) ih) (λ _. ih)
  where
    below : (x y : ℕ) → ltb x y ≡ true → (x == y) ≡ false
    below x y h = ground arith

    both : (x y : Bool) → x ≡ false → y ≡ false → (x || y) ≡ false
    both x y h k = ground arith

-- How a cascade treats one layer.
abbrev Treated :
    {Info : Type 0}
    → ℕ
    → List SlotKey
    → ℕ
    → RoundLayer Info
    → Map ℕ (RoundLayer Info) × List ℕ
    → Type 0
Treated base changed ci layer r =
    (Map.get ci r.0
      ≡ some (if is_affected base changed ci layer then clear_speculation layer else layer))
    × (Set.contains ci r.1 ≡ is_affected base changed ci layer)

invalidate-Treated :
    {Info : Type 0} (base : ℕ) (changed : List SlotKey) (m : Map ℕ (RoundLayer Info)) (ci : ℕ)
    {layer : RoundLayer Info}
    → IsSorted m
    → Map.get ci m ≡ some layer
    → Treated base changed ci layer (invalidate base changed m)
unfolding invalidate
invalidate-Treated base changed [] ci {layer} s e = absurd (get-nil ci {x = layer} e)
invalidate-Treated base changed ((k, l) ∷ m) ci {layer} s e = elim (Bool-cases (ci == k)) [
  | inl here ↦
      rw (← (get_head ci k l m here e), (==_iff ci k).0 here)
        (keep_or_clear-same (is_affected base changed k l) k l (invalidate base changed m)
          (listed-Above base changed m k s.0))
  | inr other ↦
      let (found, listed) =
        keep_or_clear-other (is_affected base changed k l) ci k l (invalidate base changed m)
          other in
      let (g, c) =
        invalidate-Treated base changed m ci {layer = layer} s.1 (get_tail ci k l m other e) in
      (found ∙ g, listed ∙ c)
]

cleared-unaffected :
    {Info : Type 0} (base : ℕ) (changed : List SlotKey) (ci : ℕ) (layer : RoundLayer Info)
    → is_affected base changed ci
        (if is_affected base changed ci layer then cleared layer else layer)
      ≡ false
unfolding is_affected wrote_changed read_changed
cleared-unaffected base changed ci layer =
    if_intro (λ l. is_affected base changed ci l ≡ false) (is_affected base changed ci layer)
      (cleared layer) layer (λ _. ground arith) (λ e. e)

IsSorted-after :
    {Info : Type 0} (affected : Bool) (layer : RoundLayer Info)
    → IsSorted layer.tx_reads
    → IsSorted (if affected then cleared layer else layer).tx_reads
IsSorted-after true layer s = tt
IsSorted-after false layer s = s

module _ {Info Db : Type 0} where
  -- Of every existing layer, where the layers stand in ascending order and so do the transactions whose
  -- reads the layer noted: a cascade leaves the layer without its versions and its noted
  -- reads, and returns its index, exactly if the layer comes after the base, is speculative, and wrote
  -- a changed slot or noted a read of one; else the layer stays as it is, and its index is not
  -- returned. The layer is not affected by the same change any more.
  pub cascade_invalidate_lem :
      (s : ShadowDb Info Db) (base : ℕ) (changed : List SlotKey) (ci : ℕ) {layer : RoundLayer Info}
      → Map.get ci s.layers ≡ some layer
      → IsSorted s.layers
      → IsSorted layer.tx_reads
      → let (s', out) = cascade_invalidate s base changed in
        (affected : Bool) × ((affected ≡ true) ↔ IsAffected base changed ci layer)
        × (Map.get ci s'.layers ≡ some (if affected then cleared layer else layer))
        × (Set.contains ci out ≡ affected)
        × (¬ IsAffected base changed ci (if affected then cleared layer else layer))
  unfolding cascade_invalidate
  cascade_invalidate_lem s base changed ci {layer} e layers_sorted sorted =
      let affected = is_affected base changed ci layer in
      let (g, c) = invalidate-Treated base changed s.layers ci {layer = layer} layers_sorted e in
      (
        affected,
        is_affected_iff base changed ci layer sorted,
        g,
        c,
        λ again. clash (
            sym (cleared-unaffected base changed ci layer)
            ∙ (is_affected_iff base changed ci (if affected then cleared layer else layer)
                  (IsSorted-after affected layer sorted)).1
                again),
      )
    where
      clash : ¬ (false ≡ true)
      clash h = absurd (ground arith)
