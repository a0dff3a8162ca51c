-- ===== src/Consensus/Linearizer/Closure.antt =====
-- What a linearised sub-dag leaves uncommitted: no ancestor of its blocks above the genesis round.
use mathlib.Core.Path.{subst}
use dual_optimistic_l.Base.{
  ℕ, zero, suc, ◌≡◌, refl, sym, ap, ◌∙◌, inl, inr, Bool, true, not, ◌&&◌, ◌||◌, Option, none, some,
  List, [], ◌∷◌, All, all, keep, map, ltb, arith, Bool-cases, Option-cases,
}
use dual_optimistic_l.Base.Set
use dual_optimistic_l.Base.Set.{contains-insert}
use dual_optimistic_l.Consensus.Commit.{sorts_before, insert_block, sort_sub_dag_blocks}
use dual_optimistic_l.Consensus.DagState.{DagState, get_block, get_blocks}
use dual_optimistic_l.Consensus.DagState.Outcome.{Outcome, done, panic, ◌>>=◌, >>=-eq-done}
use dual_optimistic_l.Consensus.DagState.Store.{IsKeyed, get_block-reference}
use dual_optimistic_l.Consensus.Linearizer.{
  uncommitted_ancestors, expect_all, push_all, visit, loop, linearize_sub_dag,
}
use dual_optimistic_l.Consensus.Linearizer.Counts.{loop_inv, fresh_first}
use dual_optimistic_l.Consensus.Types.{BlockRef, VerifiedBlock, reference, ref_iff, ref_key}

pub insert_mono :
    (r k : BlockRef) (c : List BlockRef)
    → Set.contains r c ≡ true
    → Set.contains r (Set.insert k c) ≡ true
insert_mono r k c h = ground (arith, contains-insert r k c)

insert-adds : (k : BlockRef) (c : List BlockRef) → Set.contains k (Set.insert k c) ≡ true
insert-adds k c = ground (arith, contains-insert k k c, ref_iff k k)

-- A run of `push_all` that was done pushed a new block first.
pub push_all_inv :
    (c : List BlockRef) (a : VerifiedBlock) (xs buffer : List VerifiedBlock) {c' : List BlockRef}
    {buffer' : List VerifiedBlock}
    → push_all c (a ∷ xs) buffer ≡ done (c', buffer')
    → push_all (Set.insert (reference a) c) xs (a ∷ buffer) ≡ done (c', buffer')
unfolding push_all
push_all_inv c a xs buffer {c'} {buffer'} e = elim (Bool-cases (Set.contains (reference a) c)) [
  | inl old ↦ absurd (ground arith)
  | inr fresh ↦ ground arith
]

push_all_mono :
    (c : List BlockRef) (xs buffer : List VerifiedBlock) (r : BlockRef) {c' : List BlockRef}
    {buffer' : List VerifiedBlock}
    → push_all c xs buffer ≡ done (c', buffer')
    → Set.contains r c ≡ true
    → Set.contains r c' ≡ true
unfolding push_all
push_all_mono c [] buffer r e h = ground arith
push_all_mono c (a ∷ xs) buffer r {c'} {buffer'} e h =
    push_all_mono (Set.insert (reference a) c) xs (a ∷ buffer) r {c' = c'} {buffer' = buffer'}
      (push_all_inv c a xs buffer e) (insert_mono r (reference a) c h)

abbrev AllIn : List BlockRef → List BlockRef → Type 0
AllIn c = All (λ r. Set.contains r c ≡ true)

push_all-adds :
    (c : List BlockRef) (xs buffer : List VerifiedBlock) {c' : List BlockRef}
    {buffer' : List VerifiedBlock}
    → push_all c xs buffer ≡ done (c', buffer')
    → AllIn c' (map reference xs)
push_all-adds c [] buffer e = tt
push_all-adds c (a ∷ xs) buffer {c'} {buffer'} e =
    let next = push_all_inv c a xs buffer e in
    (
      push_all_mono (Set.insert (reference a) c) xs (a ∷ buffer) (reference a) {c' = c'}
          {buffer' = buffer'} next (insert-adds (reference a) c),
      push_all-adds (Set.insert (reference a) c) xs (a ∷ buffer) next,
    )

expected : Option VerifiedBlock → Outcome (List VerifiedBlock) → Outcome (List VerifiedBlock)
expected none more = panic
expected (some b) more = do bs ← more; done (b ∷ bs)

expect_all-cons :
    (o : Option VerifiedBlock) (os : List (Option VerifiedBlock))
    → expect_all (o ∷ os) ≡ expected o (expect_all os)
unfolding expect_all expected
expect_all-cons none os = refl
expect_all-cons (some b) os = refl

pub list_inv :
    (x y : List VerifiedBlock) → ◌≡◌ {A = Outcome (List VerifiedBlock)} (done x) (done y) → y ≡ x
list_inv x y e = ground arith

-- A run of `expect_all` that was done found its first block.
pub expect_all_inv :
    (s : DagState) (r : BlockRef) (rs : List BlockRef) {xs : List VerifiedBlock}
    → expect_all (map (get_block s) (r ∷ rs)) ≡ done xs
    → (b : VerifiedBlock) × (ys : List VerifiedBlock) × (get_block s r ≡ some b)
      × (expect_all (map (get_block s) rs) ≡ done ys)
      × (xs ≡ b ∷ ys)
unfolding expected
expect_all_inv s r rs {xs} e = elim (Option-cases (get_block s r)) [
  | inl lost ↦
      let p : panic ≡ done xs =
        ap (λ o. expected o (expect_all (map (get_block s) rs))) (sym lost)
        ∙ sym (expect_all-cons (get_block s r) (map (get_block s) rs))
        ∙ e in
      absurd (ground arith)
  | inr (b, found) ↦
      let p : (expect_all (map (get_block s) rs) >>= λ bs. done (b ∷ bs)) ≡ done xs =
        ap (λ o. expected o (expect_all (map (get_block s) rs))) (sym found)
        ∙ sym (expect_all-cons (get_block s r) (map (get_block s) rs))
        ∙ e in
      let (ys, e1, e2) = >>=-eq-done (expect_all (map (get_block s) rs)) (λ bs. done (b ∷ bs)) p in
      (b, ys, found, e1, list_inv (b ∷ ys) xs e2)
]

expect_all-references :
    (s : DagState) (rs : List BlockRef) {xs : List VerifiedBlock}
    → IsKeyed s
    → expect_all (map (get_block s) rs) ≡ done xs
    → map reference xs ≡ rs
unfolding expect_all
expect_all-references s [] {xs} k e = rw (list_inv [] xs e)
expect_all-references s (r ∷ rs) {xs} k e =
    let (b, ys, found, more, cons) = expect_all_inv s r rs e in
    rw (cons, get_block-reference s r k found, expect_all-references s rs k more)

-- Every ancestor above the genesis round is committed.
abbrev pub has_committed_ancestors : List BlockRef → VerifiedBlock → Bool
has_committed_ancestors c b = all (λ a. not (ltb 0 a.round) || Set.contains a c) b.ancestors

closed_from_kept :
    (c c' : List BlockRef) (as_ : List BlockRef)
    → ((r : BlockRef) → Set.contains r c ≡ true → Set.contains r c' ≡ true)
    → AllIn c' (keep (λ a. ltb 0 a.round && not (Set.contains a c)) as_)
    → all (λ a. not (ltb 0 a.round) || Set.contains a c') as_ ≡ true
closed_from_kept c c' [] mono h = refl
closed_from_kept c c' (a ∷ rest) mono h = ground (arith, mono a, closed_from_kept c c' rest mono)

closed_mono :
    (c c' : List BlockRef) (as_ : List BlockRef)
    → ((r : BlockRef) → Set.contains r c ≡ true → Set.contains r c' ≡ true)
    → all (λ a. not (ltb 0 a.round) || Set.contains a c) as_ ≡ true
    → all (λ a. not (ltb 0 a.round) || Set.contains a c') as_ ≡ true
closed_mono c c' [] mono h = refl
closed_mono c c' (a ∷ rest) mono h = ground (arith, mono a, closed_mono c c' rest mono)

visit-closed :
    (s : DagState) (c : List BlockRef) (b : VerifiedBlock) (buffer : List VerifiedBlock)
    {c' : List BlockRef} {buffer' : List VerifiedBlock}
    → IsKeyed s
    → visit s c b buffer ≡ done (c', buffer')
    → ((r : BlockRef) → Set.contains r c ≡ true → Set.contains r c' ≡ true)
      × (has_committed_ancestors c' b ≡ true)
unfolding visit get_blocks uncommitted_ancestors
visit-closed s c b buffer {c'} {buffer'} k e =
    let rs = keep (λ a. ltb 0 a.round && not (Set.contains a c)) b.ancestors in
    let (xs, e1, e2) =
      >>=-eq-done (expect_all (map (get_block s) rs))
        (λ (xs : List VerifiedBlock). push_all c xs buffer) e in
    let mono : (r : BlockRef) → Set.contains r c ≡ true → Set.contains r c' ≡ true =
      λ r h. push_all_mono c xs buffer r {c' = c'} {buffer' = buffer'} e2 h in
    let added : AllIn c' rs =
      subst (AllIn c') (expect_all-references s rs k e1) (push_all-adds c xs buffer e2) in
    (mono, closed_from_kept c c' b.ancestors mono added)

loop-closed :
    (fuel : ℕ) (s : DagState) (c : List BlockRef) (buffer : List VerifiedBlock) {c' : List BlockRef}
    {out : List VerifiedBlock}
    → IsKeyed s
    → loop fuel s c buffer ≡ done (c', out)
    → ((r : BlockRef) → Set.contains r c ≡ true → Set.contains r c' ≡ true)
      × All (λ b. has_committed_ancestors c' b ≡ true) out
unfolding loop
loop-closed fuel s c [] {c'} {out} k e =
    let (same, none_out) = ended c c' out e in rw (none_out, same) (λ r h. h, tt)
  where
    ended :
        (c c' : List BlockRef) (out : List VerifiedBlock)
        → ◌≡◌ {A = Outcome (List BlockRef × List VerifiedBlock)} (done (c, [])) (done (c', out))
        → (c' ≡ c) × (out ≡ [])
    ended c c' out e = ground arith
loop-closed zero s c (b ∷ buffer) k e = absurd (ground arith)
loop-closed (suc fuel) s c (b ∷ buffer) {c'} {out} k e =
    let (d, buffer', rest, e1, e2, e3) = loop_inv fuel s c b buffer e in
    let (mono, here) = visit-closed s c b buffer k e1 in
    let (later, more) = loop-closed fuel s d buffer' k e2 in
    rw e3 (λ r h. later r (mono r h), (closed_mono d c' b.ancestors later here, more))

insert_block-All :
    (P : VerifiedBlock → Type 0) (a : VerifiedBlock) (bs : List VerifiedBlock)
    → P a
    → All P bs
    → All P (insert_block a bs)
unfolding insert_block
insert_block-All P a [] p h = (p, tt)
insert_block-All P a (b ∷ rest) p h = elim (Bool-cases (sorts_before b a)) [
  | inl e ↦ rw e (h.0, insert_block-All P a rest p h.1)
  | inr e ↦ rw e (p, h)
]

sort_sub_dag_blocks-All :
    (P : VerifiedBlock → Type 0) (bs : List VerifiedBlock)
    → All P bs
    → All P (sort_sub_dag_blocks bs)
unfolding sort_sub_dag_blocks
sort_sub_dag_blocks-All P [] h = tt
sort_sub_dag_blocks-All P (b ∷ rest) h =
    insert_block-All P b (sort_sub_dag_blocks rest) h.0 (sort_sub_dag_blocks-All P rest h.1)

-- Where every block of the DAG stands under its own reference, and whenever a leader's sub-dag is
-- linearised: every ancestor above the genesis round of every block of the sub-dag is committed
-- afterwards.
pub linearize_sub_dag-closed :
    (s : DagState) (leader : VerifiedBlock) {t : DagState} {blocks : List VerifiedBlock}
    → IsKeyed s
    → linearize_sub_dag leader s ≡ done (t, blocks)
    → All (λ b. has_committed_ancestors t.committed b ≡ true) blocks
linearize_sub_dag-closed s leader {t} {blocks} k e =
    let (_, committed, out, ran, et, eb) = fresh_first s leader e in
    let (_, closed) = loop-closed _ s _ (leader ∷ []) k ran in
    rw (et, eb)
      (sort_sub_dag_blocks-All (λ b. has_committed_ancestors committed b ≡ true) out closed)
