-- ===== src/Shared.antt =====
-- crates/shared/src/lib.rs: the types that cross crate boundaries. A raw transaction is its bytes;
-- addresses, storage keys, storage values and digests are the numbers that their bytes spell.
use dual_optimistic_l.Base.{ℕ, Bool, List}

-- `EthSignedTx`
abbrev pub EthSignedTx : Type 0
EthSignedTx = List ℕ

pub record BlockRef : Type 0 where
  pub round : ℕ
  pub author : ℕ
  pub digest : ℕ

pub record OurVerifiedBlock : Type 0 where
  pub block_ref : BlockRef
  pub txs : List EthSignedTx

pub record OurCommittedSubDag : Type 0 where
  pub leader : BlockRef
  pub blocks : List OurVerifiedBlock
  pub timestamp_ms : ℕ
  pub commit_index : ℕ

pub data ConsensusEvent : Type 0 where
  soft_commit : ℕ → BlockRef → List EthSignedTx → ConsensusEvent
  hard_commit : OurCommittedSubDag → ConsensusEvent

pub record TxBatch : Type 0 where
  pub round : ℕ
  pub commit_index : ℕ
  pub txs : List EthSignedTx
  pub is_optimistic : Bool

pub data BackpressureSignal : Type 0 where
  slow_down resume : BackpressureSignal
