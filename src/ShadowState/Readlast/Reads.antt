-- ===== src/ShadowState/Readlast/Reads.antt =====
-- What a lookup notes, and what it makes of a pending version.
use dual_optimistic_l.Base.{
  ℕ, ◌<◌, ◌≡◌, ◌⊎◌, refl, ap, ◌∙◌, inl, inr, true, not, Option, none, some, [], ◌∷◌, lt→ltb, ◌==◌,
  if◌then◌else◌, arith, Bool-cases, Option-cases,
}
use dual_optimistic_l.Base.Key.{nat_key, pair_key, pair_eqb, pair_iff}
use dual_optimistic_l.Base.Map
use dual_optimistic_l.Base.Map.{Map, get-insert}
use dual_optimistic_l.Base.Map.Values.{or_default, update, newest, get-update}
use dual_optimistic_l.ShadowState.{SlotKey, data_value, pending, RoundLayer, ShadowDb, speculative}
use dual_optimistic_l.ShadowState.Validation.{data_below}
use dual_optimistic_l.ShadowState.Readlast.{
  FoundVersion, written, found_in, has_value, find_in_layer, add_reader, add_read, note_read,
  readlast_storage, storage_ref,
}

-- The value that a layer notes as read by a transaction.
abbrev pub noted_read : {Info : Type 0} → RoundLayer Info → ℕ → SlotKey → Option ℕ
noted_read layer t key = Map.get key (or_default [] (Map.get t layer.tx_reads))

add_read-noted_read :
    {Info : Type 0} (key : SlotKey) (t v : ℕ) (layer : RoundLayer Info)
    → noted_read (add_read key t v layer) t key ≡ some v
unfolding add_read
add_read-noted_read key t v layer =
    let self : (t == t) ≡ true = ground arith in
    let same : pair_eqb key key ≡ true = (pair_iff key key).1 refl in
    rw
      (
        get-insert t t (Map.insert key v (or_default [] (Map.get t layer.tx_reads))) layer.tx_reads,
        self,
      )
      (get-insert key key v (or_default [] (Map.get t layer.tx_reads)) ∙ rw same)

update-there :
    {Info : Type 0} (k j : ℕ) (f : RoundLayer Info → RoundLayer Info) (m : Map ℕ (RoundLayer Info))
    {layer : RoundLayer Info}
    → Map.get k m ≡ some layer
    → (layer' : RoundLayer Info) × (Map.get k (update j f m) ≡ some layer')
update-there k j f m {layer} e = elim (Bool-cases (k == j)) [
  | inl here ↦ (f layer, get-update k j f m ∙ rw (here, e))
  | inr other ↦ (layer, get-update k j f m ∙ rw other e)
]

note_read-noted :
    {Info : Type 0} (key : SlotKey) (ci t : ℕ) (f : FoundVersion) (m : Map ℕ (RoundLayer Info))
    {layer : RoundLayer Info}
    → Map.get ci m ≡ some layer
    → has_value f ≡ true
    → (layer' : RoundLayer Info) × (Map.get ci (note_read key ci t f m) ≡ some layer')
      × (noted_read layer' t key ≡ some f.value)
unfolding note_read
note_read-noted key ci t f m {layer} e h =
    let noted = update f.writer_ci (add_reader key f.writer_tx t) m in
    let (middle, g) = update-there ci f.writer_ci (add_reader key f.writer_tx t) m e in
    let self : (ci == ci) ≡ true = ground arith in
    (
      add_read key t f.value middle,
      rw h (get-update ci ci (add_read key t f.value) noted ∙ rw (self, g)),
      add_read-noted_read key t f.value middle,
    )

returned :
    (f : FoundVersion) (v : ℕ)
    → (if has_value f then some f.value else none) ≡ some v
    → (has_value f ≡ true) × (f.value ≡ v)
returned f v e = ground arith

module _ {Info Db : Type 0} where
  -- A lookup that returns a value from the layers, on behalf of a transaction whose layer exists,
  -- notes in that layer that the transaction has read this value of this slot.
  pub readlast_storage-noted :
      (s : ShadowDb Info Db) (key : SlotKey) (ci t v : ℕ) {layer : RoundLayer Info}
      → Map.get ci s.layers ≡ some layer
      → (readlast_storage s key ci t).1 ≡ some v
      → (layer' : RoundLayer Info) × (Map.get ci (readlast_storage s key ci t).0.layers
          ≡ some layer')
        × (noted_read layer' t key ≡ some v)
  unfolding readlast_storage
  readlast_storage-noted s key ci t v {layer} e h =
      elim (Option-cases (newest (find_in_layer key ci t) s.layers)) [
        | inl lost ↦ let k = rw (lost, readlast_storage) at h in absurd (ground arith)
        | inr (f, found) ↦
            let (has, same) = returned f v (rw (found, readlast_storage) at h) in
            let (layer', g, noted) = note_read-noted key ci t f s.layers e has in
            rw (found, readlast_storage) (layer', g, noted ∙ ap (λ x. some x) same)
      ]

  -- A database with one round, in which one transaction wrote a value to a slot and a later one is
  -- pending on it.
  abbrev pub pending_after : ShadowDb Info Db → ℕ → SlotKey → ℕ → ℕ → ℕ → ShadowDb Info Db
  pending_after s ci key early late v = record s {
    layers =
        (
          ci,
          record {
            commit_index = ci;
            status = speculative;
            slot_versions =
                (
                  key,
                  record { versions = (early, data_value v) ∷ (late, pending) ∷ []; readers = [] },
                )
                ∷ [];
            account_versions = [];
            pending_txs = none;
            tx_reads = [];
          },
        )
        ∷ [];
    current_commit_index = ci;
  }

  pending_found :
      (s : ShadowDb Info Db) (key : SlotKey) (ci early late t v : ℕ)
      → early < late
      → late < t
      → newest (find_in_layer key ci t) (pending_after s ci key early late v).layers
        ≡ some (record { writer_ci = ci; writer_tx = late; value = v; was_pending = true })
  unfolding newest find_in_layer Map.get written found_in data_below
  pending_found s (addr, slot) ci early late t v h k =
      let self : (ci == ci) ≡ true = ground arith in
      let here : (addr == addr) ≡ true = ground arith in
      let there : (slot == slot) ≡ true = ground arith in
      rw (newest, find_in_layer, here, there, self, lt→ltb late t k, lt→ltb early late h)

  readlast_storage-found :
      (s : ShadowDb Info Db) (key : SlotKey) (ci t : ℕ) {f : FoundVersion}
      → newest (find_in_layer key ci t) s.layers ≡ some f
      → (readlast_storage s key ci t).1 ≡ (if has_value f then some f.value else none)
  unfolding readlast_storage
  readlast_storage-found s key ci t found = rw (found, readlast_storage)

  readlast_storage-canonical :
      (s : ShadowDb Info Db) (key : SlotKey) (ci t : ℕ)
      → (readlast_storage s key ci t).0.canonical ≡ s.canonical
  unfolding readlast_storage
  readlast_storage-canonical s key ci t =
      elim (Option-cases (newest (find_in_layer key ci t) s.layers)) [
        | inl lost ↦ rw (lost, readlast_storage)
        | inr (f, found) ↦ rw (found, readlast_storage)
      ]

  storage_ref-some :
      {E : Type 0} (canonical_storage : Db → SlotKey → E ⊎ ℕ) (s : ShadowDb Info Db) (key : SlotKey)
      (v : ℕ)
      → (readlast_storage s key s.current_commit_index s.current_tx).1 ≡ some v
      → (storage_ref canonical_storage s key).1 ≡ inr v
  unfolding storage_ref
  storage_ref-some canonical_storage s key v e = rw (e, storage_ref)

  storage_ref-none :
      {E : Type 0} (canonical_storage : Db → SlotKey → E ⊎ ℕ) (s : ShadowDb Info Db) (key : SlotKey)
      → (readlast_storage s key s.current_commit_index s.current_tx).1 ≡ none
      → (storage_ref canonical_storage s key).1 ≡ canonical_storage s.canonical key
  unfolding storage_ref
  storage_ref-none canonical_storage s key e =
      rw (e, storage_ref)
        (ap (λ db. canonical_storage db key)
          (readlast_storage-canonical s key s.current_commit_index s.current_tx))

  -- In a database with one round, in which one transaction wrote a value to a slot and a later one
  -- is pending on it, a lookup by a still later transaction of that round gives the value written,
  -- unless it is zero: then it gives the canonical value.
  pub pending_falls_back :
      {E : Type 0} (canonical_storage : Db → SlotKey → E ⊎ ℕ) (s : ShadowDb Info Db) (key : SlotKey)
      (ci early late v : ℕ)
      → early < late
      → late < s.current_tx
      → (storage_ref canonical_storage (pending_after s ci key early late v) key).1
        ≡ (if v == 0 then canonical_storage s.canonical key else inr v)
  pending_falls_back canonical_storage s key ci early late v h k =
      let t = pending_after s ci key early late v in
      let answer : (readlast_storage t key ci s.current_tx).1
          ≡ (if not (v == 0) then some v else none) =
        readlast_storage-found t key ci s.current_tx
          (pending_found s key ci early late s.current_tx v h k) in
      elim (Bool-cases (v == 0)) [
        | inl lost ↦ storage_ref-none canonical_storage t key (rw lost at answer) ∙ rw lost
        | inr kept ↦ storage_ref-some canonical_storage t key v (rw kept at answer) ∙ rw kept
      ]
