-- ===== src/Consensus/Linearizer/ReadOnly.antt =====
-- The read-only traversal of the soft commit against the linearizer.
use mathlib.Core.Path.{subst}
use dual_optimistic_l.Base.{
  ℕ, zero, suc, ◌≡◌, sym, ap, ◌∙◌, inl, inr, Bool, true, false, not, ◌&&◌, ◌||◌, some, List, [],
  ◌∷◌, keep, map, ltb, arith, Bool-cases,
}
use dual_optimistic_l.Base.Set
use dual_optimistic_l.Base.Set.{contains-insert}
use dual_optimistic_l.Consensus.Commit.{sort_sub_dag_blocks}
use dual_optimistic_l.Consensus.DagState.{DagState, get_block, get_blocks, gc_round, is_committed}
use dual_optimistic_l.Consensus.DagState.Causal.{
  is_pushed, push_ancestor, push_ancestors, causal_loop, causal_fuel, get_causal_blocks,
}
use dual_optimistic_l.Consensus.DagState.Outcome.{done, ◌>>=◌, >>=-eq-done}
use dual_optimistic_l.Consensus.DagState.Store.{IsKeyed, get_block-reference}
use dual_optimistic_l.Consensus.Linearizer.{
  uncommitted_ancestors, expect_all, push_all, visit, loop, linearize_sub_dag,
}
use dual_optimistic_l.Consensus.Linearizer.Closure.{
  insert_mono, push_all_inv, list_inv, expect_all_inv,
}
use dual_optimistic_l.Consensus.Linearizer.Counts.{loop_inv, fresh_first}
use dual_optimistic_l.Consensus.Types.{BlockRef, VerifiedBlock, reference, ref_eqb, ref_key}

-- The linearizer has marked what was committed at first and what the other traversal visited.
abbrev Marks : DagState → List BlockRef → List BlockRef → Type 0
Marks s v c = (r : BlockRef) → Set.contains r c ≡ (is_committed s r || Set.contains r v)

Marks-start : (s : DagState) (a : BlockRef) → Marks s (Set.insert a []) (Set.insert a s.committed)
unfolding is_committed Set.contains
Marks-start s a r =
    swap (ref_eqb r a) (Set.contains r s.committed) _ _ (contains-insert r a s.committed)
      (contains-insert r a [])
  where
    swap :
        (here old both one : Bool)
        → both ≡ (here || old)
        → one ≡ (here || false)
        → both ≡ (old || one)
    swap here old both one e f = ground arith

Marks-insert :
    (s : DagState) (v c : List BlockRef) (a : BlockRef)
    → Marks s v c
    → Marks s (Set.insert a v) (Set.insert a c)
Marks-insert s v c a m r = ground (arith, m r, contains-insert r a v, contains-insert r a c)

push_ancestor_skips :
    (s : DagState) (a : BlockRef) (v : List BlockRef) (stack : List VerifiedBlock)
    → is_pushed s 0 v a ≡ false
    → push_ancestor s 0 a (v, stack) ≡ (v, stack)
unfolding push_ancestor
push_ancestor_skips s a v stack h = rw (h, push_ancestor)

push_ancestor_pushes :
    (s : DagState) (a : BlockRef) {b : VerifiedBlock} (v : List BlockRef)
    (stack : List VerifiedBlock)
    → is_pushed s 0 v a ≡ true
    → get_block s a ≡ some b
    → push_ancestor s 0 a (v, stack) ≡ (Set.insert a v, b ∷ stack)
unfolding push_ancestor
push_ancestor_pushes s a v stack h e = rw (h, e, push_ancestor)

is_pushed_lem :
    (s : DagState) (v c : List BlockRef) (a : BlockRef)
    → Marks s v c
    → is_pushed s 0 v a ≡ (ltb 0 a.round && not (Set.contains a c))
unfolding is_pushed
is_pushed_lem s v c a m = ground (arith, m a)

push_all_fresh :
    (c : List BlockRef) (a : VerifiedBlock) (xs buffer : List VerifiedBlock)
    {r : List BlockRef × List VerifiedBlock}
    → push_all c (a ∷ xs) buffer ≡ done r
    → Set.contains (reference a) c ≡ false
unfolding push_all
push_all_fresh c a xs buffer e = ground arith

keep_takes :
    (t : BlockRef → Bool) (a : BlockRef) (as_ : List BlockRef)
    → t a ≡ true
    → keep t (a ∷ as_) ≡ a ∷ keep t as_
keep_takes t a as_ h = rw (h, keep)

keep_drops :
    (t : BlockRef → Bool) (a : BlockRef) (as_ : List BlockRef)
    → t a ≡ false
    → keep t (a ∷ as_) ≡ keep t as_
keep_drops t a as_ h = rw (h, keep)

nothing_pushed :
    (c c' : List BlockRef) (stack stack' : List VerifiedBlock)
    → push_all c [] stack ≡ done (c', stack')
    → (c ≡ c') × (stack ≡ stack')
unfolding push_all
nothing_pushed c c' stack stack' e = ground arith

same_pushes :
    (s : DagState) (c0 c v as_ : List BlockRef) (stack : List VerifiedBlock)
    {xs : List VerifiedBlock} {c' : List BlockRef} {stack' : List VerifiedBlock}
    → IsKeyed s
    → ((r : BlockRef) → Set.contains r c0 ≡ true → Set.contains r c ≡ true)
    → Marks s v c
    → expect_all (map (get_block s) (keep (λ a. ltb 0 a.round && not (Set.contains a c0)) as_))
      ≡ done xs
    → push_all c xs stack ≡ done (c', stack')
    → (v' : List BlockRef) × (push_ancestors s 0 as_ (v, stack) ≡ (v', stack')) × Marks s v' c'
unfolding push_ancestors expect_all
same_pushes s c0 c v [] stack {xs} {c'} {stack'} k up m e p =
    let empty : xs ≡ [] = list_inv [] xs e in
    let (e1, e2) = nothing_pushed c c' stack stack' (rw empty at p) in
    (v, ap (λ x. (v, x)) e2, subst (Marks s v) e1 m)
same_pushes s c0 c v (a ∷ rest) stack {xs} {c'} {stack'} k up m e p =
    let test : BlockRef → Bool = λ a. ltb 0 a.round && not (Set.contains a c0) in
    elim (Bool-cases (test a)) [
      | inl takes ↦
          let (b, ys, found, e1, cons) =
            expect_all_inv s a (keep test rest) (rw (keep_takes test a rest takes) at e) in
          let p1 : push_all c (b ∷ ys) stack ≡ done (c', stack') = rw cons at p in
          let key : reference b ≡ a = get_block-reference s a k found in
          let fresh0 : Set.contains (reference b) c ≡ false = push_all_fresh c b ys stack p1 in
          let fresh : Set.contains a c ≡ false = rw key at fresh0 in
          let more : push_all (Set.insert (reference b) c) ys (b ∷ stack) ≡ done (c', stack') =
            push_all_inv c b ys stack p1 in
          let p2 : push_all (Set.insert a c) ys (b ∷ stack) ≡ done (c', stack') = rw key at more in
          let yes_ : is_pushed s 0 v a ≡ true = is_pushed_lem s v c a m ∙ ground arith in
          let (v', e2, m') =
            same_pushes s c0 (Set.insert a c) (Set.insert a v) rest (b ∷ stack) k
              (λ r h. insert_mono r a c (up r h)) (Marks-insert s v c a m) e1 p2 in
          (v', ap (push_ancestors s 0 rest) (push_ancestor_pushes s a v stack yes_ found) ∙ e2, m')
      | inr drops ↦
          let no_ : is_pushed s 0 v a ≡ false = is_pushed_lem s v c a m ∙ ground (arith, up a) in
          let (v', e2, m') =
            same_pushes s c0 c v rest stack k up m (rw (keep_drops test a rest drops) at e) p in
          (v', ap (push_ancestors s 0 rest) (push_ancestor_skips s a v stack no_) ∙ e2, m')
    ]

same_visit :
    (s : DagState) (c v : List BlockRef) (b : VerifiedBlock) (stack : List VerifiedBlock)
    {c' : List BlockRef} {stack' : List VerifiedBlock}
    → IsKeyed s
    → Marks s v c
    → visit s c b stack ≡ done (c', stack')
    → (v' : List BlockRef) × (push_ancestors s 0 b.ancestors (v, stack) ≡ (v', stack'))
      × Marks s v' c'
unfolding visit get_blocks uncommitted_ancestors
same_visit s c v b stack {c'} {stack'} k m e =
    let rs = keep (λ a. ltb 0 a.round && not (Set.contains a c)) b.ancestors in
    let (xs, e1, e2) =
      >>=-eq-done (expect_all (map (get_block s) rs))
        (λ (xs : List VerifiedBlock). push_all c xs stack) e in
    same_pushes s c c v b.ancestors stack k (λ r h. h) m e1 e2

same_loop :
    (fuel : ℕ) (s : DagState) (c v : List BlockRef) (stack : List VerifiedBlock)
    {c' : List BlockRef} {out : List VerifiedBlock}
    → IsKeyed s
    → Marks s v c
    → loop fuel s c stack ≡ done (c', out)
    → causal_loop fuel s 0 v stack ≡ done out
unfolding loop causal_loop
same_loop fuel s c v [] {c'} {out} k m e = ground arith
same_loop zero s c v (b ∷ stack) k m e = absurd (ground arith)
same_loop (suc fuel) s c v (b ∷ stack) {c'} {out} k m e =
    let (d, stack', rest, e1, e2, e3) = loop_inv fuel s c b stack e in
    let (v', p, m') = same_visit s c v b stack k m e1 in
    ap (λ st. causal_loop fuel s 0 st.0 st.1 >>= λ rest. done (b ∷ rest)) p
    ∙ ap (λ o. o >>= λ rest. done (b ∷ rest)) (same_loop fuel s d v' stack' k m' e2)
    ∙ ap done (sym e3)

open_causal :
    (s : DagState) (leader : VerifiedBlock)
    → get_block s (reference leader) ≡ some leader
    → is_committed s (reference leader) ≡ false
    → get_causal_blocks s (reference leader) 0
      ≡ causal_loop (causal_fuel s) s 0 (Set.insert (reference leader) []) (leader ∷ [])
unfolding get_causal_blocks
open_causal s leader e h = rw (e, h, get_causal_blocks)

-- Where every block of the DAG stands under its own reference, the DAG has the leader, and the
-- leader's sub-dag is linearised: the read-only traversal of the soft commit, at the same DAG, is done,
-- and the sub-dag is its result sorted.
pub linearize_sub_dag-get_causal_blocks :
    (s : DagState) (leader : VerifiedBlock) {t : DagState} {blocks : List VerifiedBlock}
    → IsKeyed s
    → get_block s (reference leader) ≡ some leader
    → linearize_sub_dag leader s ≡ done (t, blocks)
    → (out : List VerifiedBlock) × (get_causal_blocks s (reference leader) (gc_round s) ≡ done out)
      × (blocks ≡ sort_sub_dag_blocks out)
linearize_sub_dag-get_causal_blocks s leader k found e =
    let (fresh, committed, out, ran, et, eb) = fresh_first s leader e in
    (
      out,
      open_causal s leader found fresh
          ∙ same_loop _ s _ _ (leader ∷ []) k (Marks-start s (reference leader)) ran,
      eb,
    )
