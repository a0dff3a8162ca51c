-- ===== src/ShadowState/Execution/Effects.antt =====
-- The three calls of the executor, seen from every slot of every layer.
use dual_optimistic_l.Base.{
  ℕ, ◌≡◌, refl, sym, ap, ◌∙◌, inl, inr, Bool, true, false, ◌&&◌, ◌||◌, Option, none, some, List, [],
  ◌∷◌, ◌++◌, ◌==◌, if◌then◌else◌, arith, ==_iff, Bool-cases, Option-cases,
}
use dual_optimistic_l.Base.Key.{nat_key, pair_key}
use dual_optimistic_l.Base.Map
use dual_optimistic_l.Base.Map.{Map, get-insert, get-remove}
use dual_optimistic_l.Base.Map.Values.{
  or_default, on_some, or_else, update, map_values, get-update, get-map_values,
}
use dual_optimistic_l.Base.Set
use dual_optimistic_l.Base.Set.{contains-insert}
use dual_optimistic_l.ShadowState.{
  SlotKey, VersionedValue, pending, SlotVersions, RoundLayer, ShadowDb, EvmState, no_versions,
  new_layer, layer_at,
}
use dual_optimistic_l.ShadowState.Execution.{
  write_state, sort_dedup, abort_slot, drained, clear_slot, abort_layer, clear_layer,
  record_tx_execution, abort_tx, commit_tx_execution,
}
use dual_optimistic_l.ShadowState.Execution.Versions.{
  slot_in, written_value, as_data, write_state-versions,
}

-- The slot after a change of every slot of its layer.
slot_in-map_values :
    (f : SlotVersions → SlotVersions) (key : SlotKey) (m : Map SlotKey SlotVersions)
    → f no_versions ≡ no_versions
    → slot_in key (map_values f m) ≡ f (slot_in key m)
slot_in-map_values f key m h = elim (Option-cases (Map.get key m)) [
  | inl e ↦ rw (get-map_values key f m, e) (sym h)
  | inr (sv, e) ↦ rw (get-map_values key f m, e)
]

sort_dedup-contains :
    (j : ℕ) (xs ys : List ℕ)
    → Set.contains j (sort_dedup (xs ++ ys)) ≡ (Set.contains j xs || Set.contains j (sort_dedup ys))
unfolding sort_dedup Set.contains
sort_dedup-contains j [] ys = refl
sort_dedup-contains j (x ∷ xs) ys =
    contains-insert j x (sort_dedup (xs ++ ys)) ∙ ground (arith, sort_dedup-contains j xs ys)

-- Every reader of a slot is among those drained.
drained-contains :
    (j t : ℕ) (key : SlotKey) (m : Map SlotKey SlotVersions)
    → Set.contains j (or_default [] (Map.get t (slot_in key m).readers)) ≡ true
    → Set.contains j (sort_dedup (drained t m)) ≡ true
unfolding drained Map.get sort_dedup Set.contains
drained-contains j t key [] h = h
drained-contains j t key ((k, sv) ∷ m) h =
    sort_dedup-contains j (or_default [] (Map.get t sv.readers)) (drained t m)
    ∙ ground (arith, drained-contains j t key m)

nested :
    {A : Type 0} (b c : Bool) (x y : A)
    → (if b then (if c then x else y) else y) ≡ (if b && c then x else y)
nested true c x y = refl
nested false c x y = refl

clear_slot-versions :
    (j t : ℕ) (sv : SlotVersions)
    → Map.get j (clear_slot t sv).versions ≡ (if j == t then none else Map.get j sv.versions)
unfolding clear_slot
clear_slot-versions j t sv = get-remove j t sv.versions

clear_slot-none : (t : ℕ) → clear_slot t no_versions ≡ no_versions
unfolding clear_slot Map.remove
clear_slot-none t = refl

rewritten-cleared :
    (here : Bool) (o : Option ℕ) (x y : Option VersionedValue)
    → y ≡ (if here then none else x)
    → (if here then or_else (as_data o) y else y) ≡ (if here then as_data o else x)
rewritten-cleared true none x y e = e
rewritten-cleared true (some v) x y e = refl
rewritten-cleared false o x y e = e

abort_slot-none : (t : ℕ) → abort_slot t no_versions ≡ no_versions
unfolding abort_slot update
abort_slot-none t = refl

abort_slot-versions :
    (j t : ℕ) (sv : SlotVersions)
    → Map.get j (abort_slot t sv).versions
      ≡ (if j == t then on_some (λ v. pending) (Map.get j sv.versions) else Map.get j sv.versions)
unfolding abort_slot
abort_slot-versions j t sv = get-update j t (λ v. pending) sv.versions

abort_slot-readers :
    (j t : ℕ) (sv : SlotVersions)
    → or_default [] (Map.get j (abort_slot t sv).readers)
      ≡ (if j == t then [] else or_default [] (Map.get j sv.readers))
unfolding abort_slot
abort_slot-readers j t sv = ground (arith, get-update j t (λ rs. []) sv.readers)

absorbed : (b c : Bool) → (b ≡ true → c ≡ true) → (b || c) ≡ c
absorbed true c h = sym (h refl)
absorbed false c h = refl

module _ {Info Db : Type 0} where
  -- The version that a layer holds of a slot by a transaction.
  abbrev pub version_of : ShadowDb Info Db → ℕ → SlotKey → ℕ → Option VersionedValue
  version_of s ci key j = Map.get j (slot_in key (layer_at ci s).slot_versions).versions

  -- The readers that a layer notes of it.
  abbrev pub readers_of : ShadowDb Info Db → ℕ → SlotKey → ℕ → List ℕ
  readers_of s ci key j =
      or_default [] (Map.get j (slot_in key (layer_at ci s).slot_versions).readers)

  layer_at-insert :
      (s : ShadowDb Info Db) (ci cj : ℕ) (layer : RoundLayer Info)
      → layer_at ci (record s { layers = Map.insert cj layer s.layers })
        ≡ (if ci == cj then layer else layer_at ci s)
  unfolding layer_at
  layer_at-insert s ci cj layer = ground (arith, get-insert ci cj layer s.layers)

  layer_at-missing :
      (s : ShadowDb Info Db) (ci : ℕ) → Map.get ci s.layers ≡ none → layer_at ci s ≡ new_layer ci
  unfolding layer_at
  layer_at-missing s ci e = rw e

  layer_at-there :
      (s : ShadowDb Info Db) (ci : ℕ) {layer : RoundLayer Info}
      → Map.get ci s.layers ≡ some layer
      → layer_at ci s ≡ layer
  unfolding layer_at
  layer_at-there s ci e = rw e

  -- A value read off the layer that was replaced, carried over to every layer.
  at_layer :
      {A : Type 0} (f : RoundLayer Info → A) (s : ShadowDb Info Db) (ci cj : ℕ)
      (layer : RoundLayer Info) (new_value : ℕ → A)
      → f layer ≡ new_value cj
      → f (layer_at ci (record s { layers = Map.insert cj layer s.layers }))
        ≡ (if ci == cj then new_value ci else f (layer_at ci s))
  at_layer f s ci cj layer new_value e = elim (Bool-cases (ci == cj)) [
    | inl here ↦
        ap f (layer_at-insert s ci cj layer)
        ∙ rw here (e ∙ ap new_value (sym ((==_iff ci cj).0 here)))
    | inr other ↦ ap f (layer_at-insert s ci cj layer) ∙ rw other
  ]

  -- After an execution is recorded, the transaction has, of every slot that the EVM reports as
  -- changed, the last value reported, in its layer; all other versions are as they were.
  pub record_tx_execution_lem :
      (s : ShadowDb Info Db) (cj t : ℕ) (st : EvmState Info) (ci a k j : ℕ)
      → version_of (record_tx_execution s cj t st) ci (a, k) j ≡ (
          if ci == cj && j == t
          then or_else (as_data (written_value a k st)) (version_of s ci (a, k) j)
          else version_of s ci (a, k) j)
  unfolding record_tx_execution
  record_tx_execution_lem s cj t st ci a k j =
      at_layer (λ l. Map.get j (slot_in (a, k) l.slot_versions).versions) s ci cj _
        (λ c.
          if j == t
          then or_else (as_data (written_value a k st)) (version_of s c (a, k) j)
          else version_of s c (a, k) j)
        (write_state-versions s.coinbase j t a k st (layer_at cj s))
      ∙ nested (ci == cj) (j == t) _ _

  -- After a re-execution in a layer that exists, the transaction has the last value reported of every
  -- slot that the EVM reports as changed, and no version of any other slot of the layer; the versions
  -- of other transactions and layers are as they were.
  pub commit_tx_execution_lem :
      (s : ShadowDb Info Db) (cj t : ℕ) (st : EvmState Info) {layer : RoundLayer Info}
      (ci a k j : ℕ)
      → Map.get cj s.layers ≡ some layer
      → version_of (commit_tx_execution s cj t st) ci (a, k) j
        ≡ (if ci == cj && j == t then as_data (written_value a k st) else version_of s ci (a, k) j)
  unfolding commit_tx_execution
  commit_tx_execution_lem s cj t st {layer} ci a k j e =
      rw (e, commit_tx_execution)
        (at_layer (λ l. Map.get j (slot_in (a, k) l.slot_versions).versions) s ci cj
            (write_state s.coinbase t st (clear_layer t layer))
            (λ c. if j == t then as_data (written_value a k st) else version_of s c (a, k) j)
            (write_state-versions s.coinbase j t a k st (clear_layer t layer)
              ∙ rewritten-cleared (j == t) (written_value a k st) (version_of s cj (a, k) j) _ (
                  ap (λ sv. Map.get j sv.versions)
                    (slot_in-map_values (clear_slot t) (a, k) layer.slot_versions
                      (clear_slot-none t))
                  ∙ clear_slot-versions j t (slot_in (a, k) layer.slot_versions)
                  ∙ ap
                      (λ l.
                        if j == t
                        then none
                        else Map.get j (slot_in (a, k) l.slot_versions).versions)
                      (sym (layer_at-there s cj e))))
          ∙ nested (ci == cj) (j == t) _ _)

  abort_layer-slot :
      (s : ShadowDb Info Db) (cj t : ℕ) {layer : RoundLayer Info} (key : SlotKey)
      → Map.get cj s.layers ≡ some layer
      → slot_in key (abort_layer t layer).slot_versions
        ≡ abort_slot t (slot_in key (layer_at cj s).slot_versions)
  abort_layer-slot s cj t {layer} key e =
      slot_in-map_values (abort_slot t) key layer.slot_versions (abort_slot-none t)
      ∙ ap (λ l. abort_slot t (slot_in key l.slot_versions)) (sym (layer_at-there s cj e))

  -- After an abort in a layer that exists, every version of the transaction in it is pending and has
  -- no readers any more; all other versions and readers are as they were; and every transaction that
  -- read from it is among those returned.
  pub abort_tx_lem :
      (s : ShadowDb Info Db) (cj t : ℕ) {layer : RoundLayer Info} (ci a k j : ℕ)
      → Map.get cj s.layers ≡ some layer
      → let (s', notified) = abort_tx s cj t in
        (version_of s' ci (a, k) j ≡ (
          if ci == cj && j == t
          then on_some (λ v. pending) (version_of s ci (a, k) j)
          else version_of s ci (a, k) j))
        × (readers_of s' ci (a, k) j
            ≡ (if ci == cj && j == t then [] else readers_of s ci (a, k) j))
        × ((Set.contains j (readers_of s cj (a, k) t) || Set.contains j notified)
            ≡ Set.contains j notified)
  unfolding abort_tx
  abort_tx_lem s cj t {layer} ci a k j e =
      let aborted = abort_layer-slot s cj t {layer = layer} (a, k) e in
      rw (e, abort_tx)
        (
          at_layer (λ l. Map.get j (slot_in (a, k) l.slot_versions).versions) s ci cj
                (abort_layer t layer)
                (λ c.
                  if j == t
                  then on_some (λ v. pending) (version_of s c (a, k) j)
                  else version_of s c (a, k) j)
                (ap (λ sv. Map.get j sv.versions) aborted ∙ abort_slot-versions j t _)
              ∙ nested (ci == cj) (j == t) _ _,
          at_layer (λ l. or_default [] (Map.get j (slot_in (a, k) l.slot_versions).readers)) s ci cj
                (abort_layer t layer) (λ c. if j == t then [] else readers_of s c (a, k) j)
                (ap (λ sv. or_default [] (Map.get j sv.readers)) aborted ∙ abort_slot-readers j t _)
              ∙ nested (ci == cj) (j == t) _ _,
          absorbed (Set.contains j (readers_of s cj (a, k) t)) _ (λ h.
              drained-contains j t (a, k) layer.slot_versions
                (sym (
                    ap
                      (λ l.
                        Set.contains j
                          (or_default [] (Map.get t (slot_in (a, k) l.slot_versions).readers)))
                      (layer_at-there s cj e))
                  ∙ h)),
        )
