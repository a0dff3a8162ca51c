-- ===== src/Consensus/Node/Start.antt =====
-- A new node is ready.
use dual_optimistic_l.Base.{ℕ, ◌%◌, ◌^◌, ◌≡◌, ap, false, some, List, [], ◌∷◌, ◌==◌, arith}
use dual_optimistic_l.Base.Map
use dual_optimistic_l.Consensus.BaseCommitter.{
  elect_leader, elect_leader_index, leader_round, slot_at, wave_number,
}
use dual_optimistic_l.Consensus.BlockManager
use dual_optimistic_l.Consensus.BlockManager.Waits.{needs, IsRegistered}
use dual_optimistic_l.Consensus.Committee
use dual_optimistic_l.Consensus.Committee.{Committee}
use dual_optimistic_l.Consensus.DagState
use dual_optimistic_l.Consensus.DagState.{index_blocks}
use dual_optimistic_l.Consensus.DagState.Store.{KeyedMap, IsKeyed, insert-KeyedMap}
use dual_optimistic_l.Consensus.Node
use dual_optimistic_l.Consensus.Node.Order.{IsReady}
use dual_optimistic_l.Consensus.Types.{VerifiedBlock, genesis_blocks}
use dual_optimistic_l.Consensus.UniversalCommitter.Prefix.{IsElected}

index_blocks-KeyedMap : (bs : List VerifiedBlock) → KeyedMap (index_blocks bs)
unfolding index_blocks
index_blocks-KeyedMap [] = tt
index_blocks-KeyedMap (b ∷ rest) =
    insert-KeyedMap b (index_blocks rest) (index_blocks-KeyedMap rest)

new-IsKeyed : (sha3 : List ℕ → ℕ) (c : Committee) → IsKeyed (DagState.new sha3 c)
unfolding DagState.new
new-IsKeyed sha3 c = record {
  blocks = tt;
  genesis = index_blocks-KeyedMap (genesis_blocks sha3 c);
  sorted = tt;
}

new-IsRegistered : IsRegistered BlockManager.new
unfolding needs Map.get
new-IsRegistered x a h = absurd (ground arith)

first_leader :
    (c : Committee) → (Committee.size c % 2 ^ 32 == 0) ≡ false → elect_leader_index c 0 0 ≡ some 0
unfolding elect_leader_index
first_leader c h = rw (h, elect_leader_index) (ap some (omega arith))

genesis-IsElected :
    (c : Committee)
    → (Committee.size c % 2 ^ 32 == 0) ≡ false
    → IsElected c (record { round = 0; authority = 0 })
unfolding elect_leader wave_number leader_round
genesis-IsElected c h = ap (slot_at 0) (first_leader c h)

-- With a committee whose size is not a multiple of 2^32.
pub new-IsReady :
    (sha3 : List ℕ → ℕ) (c : Committee)
    → (Committee.size c % 2 ^ 32 == 0) ≡ false
    → IsReady c (Node.new sha3 c)
unfolding Node.new
new-IsReady sha3 c h = record {
  keyed = new-IsKeyed sha3 c;
  registered = new-IsRegistered;
  elected = genesis-IsElected c h;
}
