-- ===== src/Consensus/Commit/Sort.antt =====
-- The order of a sub-dag.
use dual_optimistic_l.Base.{
  ℕ, ◌+◌, ◌≡◌, refl, Bool, true, false, List, [], ◌∷◌, arith, Bool-cases, inl, inr,
}
use dual_optimistic_l.Consensus.Types.{BlockRef, VerifiedBlock, reference, ref_eqb}
use dual_optimistic_l.Consensus.Commit.{sorts_before, insert_block, sort_sub_dag_blocks}

abbrev pub bit : Bool → ℕ
bit true = 1
bit false = 0

-- How often a reference occurs among some blocks.
abbrev pub occurrences : BlockRef → List VerifiedBlock → ℕ
occurrences r [] = 0
occurrences r (b ∷ rest) = bit (ref_eqb r (reference b)) + occurrences r rest

insert_block-occurrences :
    (r : BlockRef) (a : VerifiedBlock) (bs : List VerifiedBlock)
    → occurrences r (insert_block a bs) ≡ bit (ref_eqb r (reference a)) + occurrences r bs
unfolding insert_block
insert_block-occurrences r a [] = refl
insert_block-occurrences r a (b ∷ rest) = elim (Bool-cases (sorts_before b a)) [
  | inl e ↦ rw e (omega (arith, insert_block-occurrences r a rest))
  | inr e ↦ rw e
]

-- The sort neither loses nor adds a block.
pub sort_sub_dag_blocks-occurrences :
    (r : BlockRef) (bs : List VerifiedBlock)
    → occurrences r (sort_sub_dag_blocks bs) ≡ occurrences r bs
unfolding sort_sub_dag_blocks
sort_sub_dag_blocks-occurrences r [] = refl
sort_sub_dag_blocks-occurrences r (b ∷ rest) = omega (
  arith,
  insert_block-occurrences r b (sort_sub_dag_blocks rest),
  sort_sub_dag_blocks-occurrences r rest,
)

-- No block sorts before its predecessor.
abbrev pub IsOrdered : List VerifiedBlock → Type 0
IsOrdered [] = Unit
IsOrdered (a ∷ []) = Unit
IsOrdered (a ∷ b ∷ rest) = (sorts_before b a ≡ false) × IsOrdered (b ∷ rest)

insert_block-IsOrdered :
    (a : VerifiedBlock) (bs : List VerifiedBlock) → IsOrdered bs → IsOrdered (insert_block a bs)
unfolding insert_block
insert_block-IsOrdered a [] h = tt
insert_block-IsOrdered a (b ∷ []) h = ground arith
insert_block-IsOrdered a (b ∷ c ∷ rest) h = ground (arith, insert_block-IsOrdered a (c ∷ rest) h.1)

-- The blocks of a sub-dag come out by ascending round, and by ascending author within a round.
pub sort_sub_dag_blocks-IsOrdered : (bs : List VerifiedBlock) → IsOrdered (sort_sub_dag_blocks bs)
unfolding sort_sub_dag_blocks
sort_sub_dag_blocks-IsOrdered [] = tt
sort_sub_dag_blocks-IsOrdered (b ∷ rest) =
    insert_block-IsOrdered b (sort_sub_dag_blocks rest) (sort_sub_dag_blocks-IsOrdered rest)
