-- ===== src/ShadowState/Commit/Finality.antt =====
-- Sequences of finalisations: the order in which rounds reach the canonical database.
use dual_optimistic_l.Base.{
  ℕ, zero, suc, ◌≡◌, refl, ap, ◌∙◌, inl, inr, true, false, Option, none, some, List, [], ◌∷◌,
  length, map, All, ltb, ◌==◌, ==_iff, if◌then◌else◌, add64, Bool-cases,
}
use dual_optimistic_l.Base.Map.{Map}
use dual_optimistic_l.ShadowState.{RoundLayer, CommitError, out_of_order, ShadowDb}
use dual_optimistic_l.ShadowState.Commit.{retain_above, next_index, finalize_commit}

-- `n` commit indices from `i` on, in u64 arithmetic.
abbrev pub indices_from : ℕ → ℕ → List ℕ
indices_from i zero = []
indices_from i (suc n) = i ∷ indices_from (add64 i 1) n

-- No layer at or below an index.
abbrev pub AllAbove : {Info : Type 0} → ℕ → Map ℕ (RoundLayer Info) → Type 0
AllAbove i m = All (λ e. ltb i e.0 ≡ true) m

retain_above-AllAbove :
    {Info : Type 0} (i : ℕ) (m : Map ℕ (RoundLayer Info)) → AllAbove i (retain_above i m)
unfolding retain_above
retain_above-AllAbove i [] = tt
retain_above-AllAbove i ((ci, layer) ∷ m) = elim (Bool-cases (ltb i ci)) [
  | inl e ↦ rw e (e, retain_above-AllAbove i m)
  | inr e ↦ rw e (retain_above-AllAbove i m)
]

module _ {Db Changes : Type 0} (commit : Db → Changes → Db) where
  -- All changes of some calls, in order.
  abbrev pub apply_all : Db → List (ℕ × Changes) → Db
  apply_all db [] = db
  apply_all db ((ci, changes) ∷ calls) = apply_all (commit db changes) calls

module _ {Info Db Changes : Type 0} (commit : Db → Changes → Db) where
  -- Calls of `finalize_commit` in turn, with the calls that succeeded.
  unfoldable pub finalize_all :
      ShadowDb Info Db → List (ℕ × Changes) → ShadowDb Info Db × List (ℕ × Changes)
  finalize_all s [] = (s, [])
  finalize_all s ((ci, changes) ∷ calls) = elim (finalize_commit commit s ci changes).1 [
    | none ↦
        let rest = finalize_all (finalize_commit commit s ci changes).0 calls in
        (rest.0, (ci, changes) ∷ rest.1)
    | some e ↦ finalize_all (finalize_commit commit s ci changes).0 calls
  ]

  finalize_next :
      (s : ShadowDb Info Db) (ci : ℕ) (changes : Changes)
      → (ci == next_index s.last_finalized) ≡ true
      → finalize_commit commit s ci changes ≡ (
        record s {
          canonical = commit s.canonical changes;
          layers = retain_above ci s.layers;
          last_finalized = some ci;
        },
        none,
      )
  unfolding finalize_commit
  finalize_next s ci changes h = rw h

  finalize_other :
      (s : ShadowDb Info Db) (ci : ℕ) (changes : Changes)
      → (ci == next_index s.last_finalized) ≡ false
      → finalize_commit commit s ci changes ≡ (s, some out_of_order)
  unfolding finalize_commit
  finalize_other s ci changes h = rw h

  -- What a call does to the rest of the sequence.
  abbrev continue :
      ℕ
      → Changes
      → List (ℕ × Changes)
      → ShadowDb Info Db × Option CommitError
      → ShadowDb Info Db × List (ℕ × Changes)
  continue ci changes calls r = elim r.1 [
    | none ↦ let rest = finalize_all r.0 calls in (rest.0, (ci, changes) ∷ rest.1)
    | some e ↦ finalize_all r.0 calls
  ]

  finalize_all_step :
      (s : ShadowDb Info Db) (ci : ℕ) (changes : Changes) (calls : List (ℕ × Changes))
      {r : ShadowDb Info Db × Option CommitError}
      → finalize_commit commit s ci changes ≡ r
      → finalize_all s ((ci, changes) ∷ calls) ≡ continue ci changes calls r
  unfolding finalize_all
  finalize_all_step s ci changes calls e = ap (continue ci changes calls) e

  -- In any sequence of calls, those that succeed have consecutive commit indices from the one that
  -- is due on, and the canonical database is in the end what their changes, in that order, make of
  -- it.
  pub finalize_all_lem :
      (s : ShadowDb Info Db) (calls : List (ℕ × Changes))
      → let (s', accepted) = finalize_all s calls in
        (map (λ c. c.0) accepted ≡ indices_from (next_index s.last_finalized) (length accepted))
        × (s'.canonical ≡ apply_all commit s.canonical accepted)
  unfolding finalize_all
  finalize_all_lem s [] = (refl, refl)
  finalize_all_lem s ((ci, changes) ∷ calls) =
      elim (Bool-cases (ci == next_index s.last_finalized)) [
        | inl due ↦
            let t : ShadowDb Info Db = record s {
              canonical = commit s.canonical changes;
              layers = retain_above ci s.layers;
              last_finalized = some ci;
            } in
            let (indices, db) = finalize_all_lem t calls in
            let here : ci ≡ next_index s.last_finalized = (==_iff _ _).0 due in
            rw (finalize_all_step s ci changes calls (finalize_next s ci changes due)) (
              ap (◌∷◌ ci) indices
                  ∙ ap (λ i. i ∷ indices_from (add64 i 1) (length (finalize_all t calls).1)) here,
              db,
            )
        | inr early ↦
            rw (finalize_all_step s ci changes calls (finalize_other s ci changes early))
              (finalize_all_lem s calls)
      ]

  -- A call succeeds exactly if its index is the one due, and else is out of order. If it succeeds,
  -- its index is the last finalised, its changes are committed to the canonical database, and no
  -- layer at or below it is left; if it fails, these three are as they were.
  pub finalize_commit_lem :
      (s : ShadowDb Info Db) (ci : ℕ) (changes : Changes)
      → let (s', result) = finalize_commit commit s ci changes in
        (result ≡ (if ci == next_index s.last_finalized then none else some out_of_order))
        × (s'.last_finalized
            ≡ (if ci == next_index s.last_finalized then some ci else s.last_finalized))
        × (s'.canonical ≡ (
            if ci == next_index s.last_finalized then commit s.canonical changes else s.canonical))
        × (if ci == next_index s.last_finalized
            then AllAbove ci s'.layers
            else s'.layers ≡ s.layers)
  finalize_commit_lem s ci changes = elim (Bool-cases (ci == next_index s.last_finalized)) [
    | inl due ↦
        rw (finalize_next s ci changes due, due)
          (refl, refl, refl, retain_above-AllAbove ci s.layers)
    | inr early ↦ rw (finalize_other s ci changes early, early) (refl, refl, refl, refl)
  ]
