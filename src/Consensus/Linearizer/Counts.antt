-- ===== src/Consensus/Linearizer/Counts.antt =====
-- Every block is committed exactly once.
use dual_optimistic_l.Base.{
  ℕ, zero, suc, ◌+◌, ◌≡◌, sym, ap, ◌∙◌, inl, inr, true, false, List, [], ◌∷◌, arith, Bool-cases,
}
use dual_optimistic_l.Base.Set
use dual_optimistic_l.Base.Set.{contains-insert}
use dual_optimistic_l.Consensus.Commit.{sort_sub_dag_blocks}
use dual_optimistic_l.Consensus.Commit.Sort.{
  bit, occurrences, IsOrdered, sort_sub_dag_blocks-occurrences, sort_sub_dag_blocks-IsOrdered,
}
use dual_optimistic_l.Consensus.DagState.{DagState, get_blocks, is_committed, set_committed}
use dual_optimistic_l.Consensus.DagState.Outcome.{Outcome, done, panic, ◌>>=◌, >>=-eq-done}
use dual_optimistic_l.Consensus.Types.{
  BlockRef, VerifiedBlock, reference, ref_eqb, ref_iff, ref_key,
}
use dual_optimistic_l.Consensus.Linearizer.{
  uncommitted_ancestors, expect_all, push_all, visit, with_head, loop, fuel_for, finish,
  linearize_sub_dag,
}

-- Inserting a reference that was not there.
bit-insert :
    (r k : BlockRef) (committed : List BlockRef)
    → Set.contains k committed ≡ false
    → bit (Set.contains r (Set.insert k committed))
      ≡ bit (ref_eqb r k) + bit (Set.contains r committed)
bit-insert r k committed h = rw (contains-insert r k committed) (ground (arith, ref_iff r k, moved))
  where
    moved : r ≡ k → Set.contains r committed ≡ false
    moved e = rw e h

pub push_all-counts :
    (committed : List BlockRef) (xs buffer : List VerifiedBlock) (r : BlockRef)
    {committed' : List BlockRef} {buffer' : List VerifiedBlock}
    → push_all committed xs buffer ≡ done (committed', buffer')
    → occurrences r buffer' + bit (Set.contains r committed)
      ≡ occurrences r buffer + bit (Set.contains r committed')
unfolding push_all
push_all-counts committed [] buffer r e = ground arith
push_all-counts committed (a ∷ rest) buffer r {committed'} {buffer'} e =
    elim (Bool-cases (Set.contains (reference a) committed)) [
      | inl old ↦ absurd (ground arith)
      | inr fresh ↦ omega (
        arith,
        push_all-counts (Set.insert (reference a) committed) rest (a ∷ buffer) r
            {committed' = committed'} {buffer' = buffer'} (ground arith),
        bit-insert r (reference a) committed fresh,
      )
    ]

done_inv :
    (c c' : List BlockRef) (x y : List VerifiedBlock)
    → ◌≡◌ {A = Outcome (List BlockRef × List VerifiedBlock)} (done (c, x)) (done (c', y))
    → (c ≡ c') × (x ≡ y)
done_inv c c' x y e = ground arith

-- A round of the loop that was done.
pub loop_inv :
    (fuel : ℕ) (s : DagState) (committed : List BlockRef) (b : VerifiedBlock)
    (buffer : List VerifiedBlock) {committed' : List BlockRef} {out : List VerifiedBlock}
    → loop (suc fuel) s committed (b ∷ buffer) ≡ done (committed', out)
    → (c : List BlockRef) × (buffer' : List VerifiedBlock) × (rest : List VerifiedBlock) × (visit s
          committed b buffer
        ≡ done (c, buffer'))
      × (loop fuel s c buffer' ≡ done (committed', rest))
      × (out ≡ b ∷ rest)
unfolding loop
loop_inv fuel s committed b buffer {committed'} {out} e =
    let ((c, buffer'), e1, e2) =
      >>=-eq-done (visit s committed b buffer)
        (λ (st : List BlockRef × List VerifiedBlock). loop fuel s st.0 st.1 >>= with_head b) e in
    let ((c', rest), e3, e4) = >>=-eq-done (loop fuel s c buffer') (with_head b) e2 in
    let (same, split) = done_inv c' committed' (b ∷ rest) out e4 in
    (c, buffer', rest, e1, e3 ∙ ap (λ (x : List BlockRef). done (x, rest)) same, sym split)

pub visit-counts :
    (s : DagState) (committed : List BlockRef) (b : VerifiedBlock) (buffer : List VerifiedBlock)
    (r : BlockRef) {committed' : List BlockRef} {buffer' : List VerifiedBlock}
    → visit s committed b buffer ≡ done (committed', buffer')
    → occurrences r buffer' + bit (Set.contains r committed)
      ≡ occurrences r buffer + bit (Set.contains r committed')
unfolding visit
visit-counts s committed b buffer r e =
    let (xs, e1, e2) =
      >>=-eq-done (expect_all (get_blocks s (uncommitted_ancestors s committed b)))
        (λ (xs : List VerifiedBlock). push_all committed xs buffer) e in
    push_all-counts committed xs buffer r e2

pub loop-counts :
    (fuel : ℕ) (s : DagState) (committed : List BlockRef) (buffer : List VerifiedBlock)
    (r : BlockRef) {committed' : List BlockRef} {out : List VerifiedBlock}
    → loop fuel s committed buffer ≡ done (committed', out)
    → occurrences r out + bit (Set.contains r committed)
      ≡ occurrences r buffer + bit (Set.contains r committed')
unfolding loop
loop-counts fuel s committed [] r e = ground arith
loop-counts zero s committed (b ∷ buffer) r e = absurd (ground arith)
loop-counts (suc fuel) s committed (b ∷ buffer) r {committed'} {out} e =
    let (c, buffer', rest, e1, e2, e3) = loop_inv fuel s committed b buffer e in
    rw e3 (omega (arith, visit-counts s committed b buffer r e1, loop-counts fuel s c buffer' r e2))

finish_inv :
    (s : DagState) (c : List BlockRef) (out : List VerifiedBlock) (t : DagState)
    (blocks : List VerifiedBlock)
    → finish s (c, out) ≡ done (t, blocks)
    → (t ≡ record s { committed = c }) × (blocks ≡ sort_sub_dag_blocks out)
finish_inv s c out t blocks e = ground arith

pub linearize_fresh :
    (s : DagState) (leader : VerifiedBlock)
    → is_committed s (reference leader) ≡ false
    → linearize_sub_dag leader s
      ≡ (loop (fuel_for s) s (Set.insert (reference leader) s.committed) (leader ∷ []) >>= finish s)
unfolding linearize_sub_dag set_committed is_committed
linearize_fresh s leader h = rw h

pub linearize_again :
    (s : DagState) (leader : VerifiedBlock)
    → is_committed s (reference leader) ≡ true
    → linearize_sub_dag leader s ≡ panic
unfolding linearize_sub_dag set_committed is_committed
linearize_again s leader h = rw h

pub fresh_first :
    (s : DagState) (leader : VerifiedBlock) {t : DagState} {blocks : List VerifiedBlock}
    → linearize_sub_dag leader s ≡ done (t, blocks)
    → (is_committed s (reference leader) ≡ false)
      × (committed : List BlockRef) × (out : List VerifiedBlock) × (loop
            (fuel_for s)
            s
            (Set.insert (reference leader) s.committed)
            (leader ∷ [])
          ≡ done (committed, out))
      × (t ≡ record s { committed = committed })
      × (blocks ≡ sort_sub_dag_blocks out)
fresh_first s leader {t} {blocks} e = elim (Bool-cases (is_committed s (reference leader))) [
  | inl old ↦ let k = sym (linearize_again s leader old) ∙ e in absurd (ground arith)
  | inr fresh ↦
      let ((c, out), e1, e2) =
        >>=-eq-done _ (finish s) (sym (linearize_fresh s leader fresh) ∙ e) in
      let (et, eb) = finish_inv s c out t blocks e2 in (fresh, c, out, e1, et, eb)
]

-- Whenever a leader's sub-dag is linearised, a block occurs in it exactly as often as it goes from
-- uncommitted to committed: at most once, never if it was committed before, and every newly
-- committed block occurs. The sub-dag is in order of round and author.
pub linearize_sub_dag-occurrences :
    (s : DagState) (leader : VerifiedBlock) {t : DagState} {blocks : List VerifiedBlock}
    (r : BlockRef)
    → linearize_sub_dag leader s ≡ done (t, blocks)
    → (occurrences r blocks + bit (is_committed s r) ≡ bit (is_committed t r)) × IsOrdered blocks
unfolding is_committed
linearize_sub_dag-occurrences s leader {t} {blocks} r e =
    let (new_leader, committed, out, ran, et, eb) = fresh_first s leader e in
    rw (et, eb)
      (
        omega (
          arith,
          sort_sub_dag_blocks-occurrences r out,
          loop-counts _ s _ _ r ran,
          bit-insert r (reference leader) s.committed new_leader,
        ),
        sort_sub_dag_blocks-IsOrdered out,
      )
