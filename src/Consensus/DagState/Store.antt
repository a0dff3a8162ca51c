-- ===== src/Consensus/DagState/Store.antt =====
-- What the DAG holds after blocks are accepted, and what the queries by slot and round return.
use mathlib.Core.Bool.{and-false}
use dual_optimistic_l.Base.{
  ℕ, ◌+◌, ◌^◌, ◌≤◌, ◌<◌, ◌≡◌, refl, ap, ◌∙◌, Bool, true, false, not, ◌&&◌, Option, none, some, List,
  [], ◌∷◌, ◌==◌, if◌then◌else◌, arith, if_intro,
}
use dual_optimistic_l.Base.Map
use dual_optimistic_l.Base.Map.{Map, get-insert}
use dual_optimistic_l.Base.Map.Order.{Above, IsSorted, insert-IsSorted}
use dual_optimistic_l.Consensus.Committee.{Committee}
use dual_optimistic_l.Consensus.Commit.Sort.{bit, occurrences}
use dual_optimistic_l.Consensus.Types.{
  BlockRef, Slot, VerifiedBlock, reference, ref_eqb, ref_iff, ref_less, ref_key, digest_max,
}
use dual_optimistic_l.Consensus.DagState.{
  DagState, accept_block, or_else, get_block, is_some, contains_block, is_committed, uncommitted_in,
  in_slot, in_round, get_uncommitted_blocks_at_slot, uncommitted_at_round,
  get_uncommitted_blocks_at_round,
}

-- Every block stands under its own reference.
abbrev pub KeyedMap : Map BlockRef VerifiedBlock → Type 0
KeyedMap [] = Unit
KeyedMap ((r, b) ∷ rest) = (reference b ≡ r) × KeyedMap rest

pub record IsKeyed (s : DagState) : Type 0 where
  pub blocks : KeyedMap s.blocks
  pub genesis : KeyedMap s.genesis
  pub sorted : IsSorted s.blocks

pub insert-KeyedMap :
    (b : VerifiedBlock) (m : Map BlockRef VerifiedBlock)
    → KeyedMap m
    → KeyedMap (Map.insert (reference b) b m)
unfolding Map.insert
insert-KeyedMap b [] h = (refl, tt)
insert-KeyedMap b ((r, d) ∷ rest) h = ground (arith, insert-KeyedMap b rest h.1)

get-KeyedMap :
    (r : BlockRef) {b : VerifiedBlock} (m : Map BlockRef VerifiedBlock)
    → KeyedMap m
    → Map.get r m ≡ some b
    → reference b ≡ r
unfolding Map.get
get-KeyedMap r [] h e = cc
get-KeyedMap r {b} ((j, d) ∷ rest) h e =
    ground (arith, ref_iff r j, get-KeyedMap r {b = b} rest h.1)

pub get_block-reference :
    (s : DagState) (r : BlockRef) {b : VerifiedBlock}
    → IsKeyed s
    → get_block s r ≡ some b
    → reference b ≡ r
unfolding get_block
get_block-reference s r {b} k e =
    ground
      (arith, get-KeyedMap r {b = b} s.blocks k.blocks, get-KeyedMap r {b = b} s.genesis k.genesis)

pub contains_block_lem :
    (s : DagState) (r : BlockRef) → contains_block s r ≡ is_some (get_block s r)
unfolding contains_block get_block
contains_block_lem s r = ground arith

accept_inv :
    (c : Committee) (s : DagState) {t : DagState} (b : VerifiedBlock)
    → accept_block c s b ≡ some t
    → (t.blocks ≡ Map.insert (reference b) b s.blocks)
      × (t.genesis ≡ s.genesis)
      × (t.committed ≡ s.committed)
      × (s.highest_accepted_round ≤ t.highest_accepted_round)
      × (b.round ≤ t.highest_accepted_round)
unfolding accept_block
accept_inv c s b e = ground arith

or_else_if :
    (here : Bool) (b : VerifiedBlock) (o o' : Option VerifiedBlock)
    → or_else (if here then some b else o) o' ≡ (if here then some b else or_else o o')
or_else_if true b o o' = refl
or_else_if false b o o' = refl

-- Where every block of the DAG stands under its own reference, and whenever the call returns: the
-- accepted block is found under its reference, and every other lookup is as before; what is
-- committed stays, the highest round is neither below what it was nor below the block's, and every
-- block still stands under its own reference.
pub accept_block_lem :
    (c : Committee) (s : DagState) {t : DagState} (b : VerifiedBlock) (r : BlockRef)
    → IsKeyed s
    → accept_block c s b ≡ some t
    → (get_block t r ≡ (if ref_eqb r (reference b) then some b else get_block s r))
      × (t.committed ≡ s.committed)
      × (s.highest_accepted_round ≤ t.highest_accepted_round)
      × (b.round ≤ t.highest_accepted_round)
      × IsKeyed t
unfolding get_block
accept_block_lem c s b r k e =
    let (blocks, genesis, committed, up, over) = accept_inv c s b e in
    (
      rw (blocks, genesis, get-insert r (reference b) b s.blocks)
          (or_else_if (ref_eqb r (reference b)) b (Map.get r s.blocks) (Map.get r s.genesis)),
      committed,
      up,
      over,
      record {
        blocks = rw blocks (insert-KeyedMap b s.blocks k.blocks);
        genesis = rw genesis k.genesis;
        sorted = rw blocks (insert-IsSorted (reference b) b s.blocks k.sorted);
      },
    )

-- The bounds of the slot query admit exactly the references of the slot.
in_slot_lem :
    (p : Slot) (r : BlockRef)
    → r.digest ≤ digest_max
    → in_slot p r ≡ (r.round == p.round && r.author == p.authority)
in_slot_lem p r h = ground arith

in_round_lem : (n : ℕ) (r : BlockRef) → n + 1 < 2 ^ 32 → in_round n r ≡ (r.round == n)
in_round_lem n r h = ground arith

less_ne : (a b : BlockRef) → ref_less a b ≡ true → ref_eqb a b ≡ false
less_ne a b h = ground arith

uncommitted_in-Above :
    (s : DagState) (f : BlockRef → Bool) (r : BlockRef) (m : Map BlockRef VerifiedBlock)
    → KeyedMap m
    → Above r m
    → occurrences r (uncommitted_in s f m) ≡ 0
unfolding uncommitted_in
uncommitted_in-Above s f r [] k a = refl
uncommitted_in-Above s f r ((j, b) ∷ rest) k a =
    let ih = uncommitted_in-Above s f r rest k.1 a.1 in
    if_intro (λ x. occurrences r x ≡ 0) (f j && not (is_committed s (reference b)))
      (b ∷ uncommitted_in s f rest) (uncommitted_in s f rest)
      (λ _. omega (arith, ap bit (ap (ref_eqb r) k.0 ∙ less_ne r j a.0), ih)) (λ _. ih)

-- The case of one more entry, `here` if it is the reference asked for.
count_entry :
    (here takes flag : Bool) (old : ℕ) (o : Option VerifiedBlock) (b : VerifiedBlock)
    → (here ≡ true → old ≡ 0)
    → (here ≡ true → takes ≡ flag)
    → old ≡ bit (flag && is_some o)
    → (if takes then bit here + old else old) ≡ bit (flag && is_some (if here then some b else o))
count_entry true takes flag old o b h t e = ground arith
count_entry false true flag old o b h t e = omega arith
count_entry false false flag old o b h t e = e

if-occurrences :
    (r : BlockRef) (takes : Bool) (b : VerifiedBlock) (more : List VerifiedBlock)
    → occurrences r (if takes then b ∷ more else more)
      ≡ (if takes then bit (ref_eqb r (reference b)) + occurrences r more else occurrences r more)
if-occurrences r true b more = refl
if-occurrences r false b more = refl

uncommitted_in-occurrences :
    (s : DagState) (f : BlockRef → Bool) (r : BlockRef) (m : Map BlockRef VerifiedBlock)
    → KeyedMap m
    → IsSorted m
    → occurrences r (uncommitted_in s f m)
      ≡ bit ((f r && not (is_committed s r)) && is_some (Map.get r m))
unfolding uncommitted_in Map.get
uncommitted_in-occurrences s f r [] k o = rw and-false
uncommitted_in-occurrences s f r ((j, b) ∷ rest) k o =
    let takes = f j && not (is_committed s (reference b)) in
    let more = uncommitted_in s f rest in
    if-occurrences r takes b more
    ∙ ap (λ x. if takes then bit x + occurrences r more else occurrences r more)
        (ap (ref_eqb r) k.0)
    ∙ count_entry (ref_eqb r j) takes (f r && not (is_committed s r)) (occurrences r more)
        (Map.get r rest) b (λ e. uncommitted_in-Above s f r rest k.1 (rw ((ref_iff r j).0 e) o.0))
        (λ e. rw ((ref_iff r j).0 e, k.0)) (uncommitted_in-occurrences s f r rest k.1 o.1)

-- Where every block of the DAG stands under its own reference: among the blocks that the query for
-- a slot returns, a reference occurs once if it is of that slot, not committed and in the DAG, and
-- else never.
pub get_uncommitted_blocks_at_slot_lem :
    (s : DagState) (p : Slot) (r : BlockRef)
    → IsKeyed s
    → r.digest ≤ digest_max
    → occurrences r (get_uncommitted_blocks_at_slot s p)
      ≡ bit (
          ((r.round == p.round && r.author == p.authority) && not (is_committed s r))
          && is_some (Map.get r s.blocks))
unfolding get_uncommitted_blocks_at_slot
get_uncommitted_blocks_at_slot_lem s p r k h =
    uncommitted_in-occurrences s (in_slot p) r s.blocks k.blocks k.sorted
    ∙ ap (λ x. bit ((x && not (is_committed s r)) && is_some (Map.get r s.blocks)))
        (in_slot_lem p r h)

-- Below the last u32 round, the range starts below its end.
pub get_uncommitted_blocks_at_round-some :
    (s : DagState) (n : ℕ)
    → n + 1 < 2 ^ 32
    → get_uncommitted_blocks_at_round s n ≡ some (uncommitted_at_round s n)
unfolding get_uncommitted_blocks_at_round
get_uncommitted_blocks_at_round-some s n h = ground arith

-- At the last u32 round, the query panics.
pub get_uncommitted_blocks_at_round-none :
    (s : DagState) → get_uncommitted_blocks_at_round s 4294967295 ≡ none
unfolding get_uncommitted_blocks_at_round
get_uncommitted_blocks_at_round-none s = refl

-- Where every block of the DAG stands under its own reference: the query for a round below the last
-- u32 round returns a list in which a reference occurs once if it is of that round, not committed
-- and in the DAG, and else never.
pub get_uncommitted_blocks_at_round_lem :
    (s : DagState) (n : ℕ) (r : BlockRef)
    → IsKeyed s
    → n + 1 < 2 ^ 32
    → (bs : List VerifiedBlock) × (get_uncommitted_blocks_at_round s n ≡ some bs)
      × (occurrences r bs
          ≡ bit ((r.round == n && not (is_committed s r)) && is_some (Map.get r s.blocks)))
unfolding uncommitted_at_round
get_uncommitted_blocks_at_round_lem s n r k h = (
  uncommitted_at_round s n,
  get_uncommitted_blocks_at_round-some s n h,
  uncommitted_in-occurrences s (in_round n) r s.blocks k.blocks k.sorted
      ∙ ap (λ x. bit ((x && not (is_committed s r)) && is_some (Map.get r s.blocks)))
          (in_round_lem n r h),
)
